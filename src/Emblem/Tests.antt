-- ===== src/Emblem/Tests.antt =====
-- A picture whose chunks arrive out of order and repeated.
use cccaster_ver_b.Prelude.{ℕ, ◌≡◌, ◌≢◌, true, List, [], ◌∷◌, length, if◌then◌else◌, arith, ◌%◌}
use cccaster_ver_b.Emblem.{Image, hash, valid_image, fresh}
use cccaster_ver_b.Emblem.Delivery.{run, arriving, is_complete, AllSame, run-published}

hash_set : (pixels : ℕ → ℕ) → hash pixels ≢ 0
unfolding hash
hash_set pixels = ground arith

abbrev picture : Image
picture = record { id = hash (λ i. i % 256); pixels = λ i. i % 256 }

picture-valid : valid_image picture ≡ true
unfolding valid_image
picture-valid = ground (arith, hash_set (λ i. i % 256))

abbrev order : List (ℕ × ℕ)
order = (3, 0) ∷ (4, 0) ∷ (3, 7) ∷ (10, 0) ∷ (6, 0) ∷ (2, 0) ∷ (7, 0) ∷ []

run-published_example :
    (length (run fresh (arriving picture order)) ≡ (if is_complete picture order then 1 else 0))
    × AllSame picture (run fresh (arriving picture order))
run-published_example = run-published picture order picture-valid
