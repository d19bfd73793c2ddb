-- ===== src/Buffer/Tests.antt =====
-- The theorems about src/buffer.cpp at a concrete buffer.
use l_w.Base.{◌≡◌, [], ◌∷◌, ◌++◌, arith}
use l_w.Buffer.{Buffer, append}
use l_w.Buffer.Queue.{IsValid, contents, append-contents}

abbrev waiting_two : Buffer
waiting_two = record { buffer = 9 ∷ 1 ∷ 2 ∷ 0 ∷ []; read_pos = 1; write_pos = 3 }

waiting_two-IsValid : IsValid waiting_two
waiting_two-IsValid = omega arith

append-contents_example :
    IsValid (append waiting_two (3 ∷ 4 ∷ 5 ∷ []))
    × (contents (append waiting_two (3 ∷ 4 ∷ 5 ∷ [])) ≡ contents waiting_two ++ 3 ∷ 4 ∷ 5 ∷ [])
append-contents_example = append-contents waiting_two-IsValid (3 ∷ 4 ∷ 5 ∷ [])
