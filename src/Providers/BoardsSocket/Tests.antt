-- ===== src/Providers/BoardsSocket/Tests.antt =====
-- The second page of a board, and a message that is cut.
use data_center.Prelude.{ℕ, ◌≤◌, ◌≡◌, refl, List, [], ◌∷◌, ◌++◌, arith}
use data_center.Prelude.Int.{pos}
use data_center.Prelude.Codes.{codes}
use data_center.Providers.BoardsSocket.Varint.{
  varint, parsed, refused, truncated_field, read_varint,
}
use data_center.Providers.BoardsSocket.Fields.{fields, fields_from, query}
use data_center.Providers.BoardsSocket.RoundTrip.{read_varint-varint}
use data_center.Providers.BoardsSocket.Progress.{Ends, fields-Ends}
use data_center.Providers.BoardsSocket.Request.{IsRequest, query-fields}

abbrev board : List ℕ
board = codes "801001"

abbrev cut : List ℕ
cut = 0x0a ∷ 0x06 ∷ 0x38 ∷ []

varint_test : varint 300 ≡ 172 ∷ 2 ∷ []
unfolding varint
varint_test = refl

cut_test : fields cut ≡ refused truncated_field
unfolding fields
cut_test = refl

read_varint-varint_example : read_varint (varint 300 ++ (7 ∷ [])) ≡ parsed (300, 7 ∷ [])
read_varint-varint_example = read_varint-varint 300 (7 ∷ []) (omega arith)

fields-Ends_example :
    Ends (fields cut) × ((more : ℕ) → 3 ≤ more → fields cut ≡ fields_from more 0 cut [])
fields-Ends_example = fields-Ends cut

query-fields_example : IsRequest board 60 60 (query board (pos 60) (pos 60))
query-fields_example = query-fields board 60 60 refl (omega arith) (omega arith) (omega arith)
