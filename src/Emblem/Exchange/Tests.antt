-- ===== src/Emblem/Exchange/Tests.antt =====
-- A side that is asked every 20 ms and hears of a chunk in between.
use cccaster_ver_b.Prelude.{ℕ, ◌≡◌, ◌≢◌, true, List, [], ◌∷◌, some, length, arith, ◌%◌}
use cccaster_ver_b.Prelude.Int.{pos, ◌-ℤ◌}
use cccaster_ver_b.Emblem.{Image, hash, valid_image, fresh}
use cccaster_ver_b.Emblem.Delivery.{run, AllSame}
use cccaster_ver_b.Emblem.Exchange.{start, next}
use cccaster_ver_b.Emblem.Exchange.Sending.{Event, asked, sent, sent-published}

hash_set : (pixels : ℕ → ℕ) → hash pixels ≢ 0
unfolding hash
hash_set pixels = ground arith

abbrev picture : Image
picture = record { id = hash (λ i. i % 256); pixels = λ i. i % 256 }

picture-valid : valid_image picture ≡ true
unfolding valid_image
picture-valid = ground (arith, hash_set (λ i. i % 256))

abbrev events : List Event
events =
    asked (pos 0)
    ∷ asked (pos 10_000)
    ∷ asked (pos 20_000)
    ∷ asked (pos 40_000)
    ∷ asked (pos 60_000)
    ∷ asked (pos 90_000)
    ∷ asked (pos 110_000)
    ∷ []

sent-published_example :
    (length (run fresh (sent (start (some picture)) events)) ≡ 1)
    × AllSame picture (run fresh (sent (start (some picture)) events))
unfolding next ◌-ℤ◌
sent-published_example = sent-published picture events picture-valid (omega arith)
