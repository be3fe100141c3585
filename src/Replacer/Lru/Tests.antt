-- ===== src/Replacer/Lru/Tests.antt =====
-- A replacer with two frames queued.
use db2024_main.Common.{[], length, none, refl, remove, some, ◌∷◌, ◌≡◌, insert, lookup}
use db2024_main.Replacer.{queue_unpin}
use db2024_main.Replacer.Lru.{LruReplacer, new, victim, pin, unpin, size}
use db2024_main.Replacer.Lru.Queue.{frames, IsValid}
use db2024_main.Replacer.Lru.Order.{
  new-IsValid, order-pin, order-unpin, victim-none, victim-some, size-order,
}

abbrev two_queued : LruReplacer
two_queued = unpin 5 (unpin 3 (new 4))

two_queued-IsValid : IsValid two_queued
two_queued-IsValid = (order-unpin (unpin 3 (new 4)) 5 (order-unpin (new 4) 3 (new-IsValid 4).0).1).1

two_queued_frames : frames two_queued.lru_list ≡ 3 ∷ 5 ∷ []
unfolding frames unpin new lookup insert
two_queued_frames = refl

new-IsValid_example : IsValid (new 4) × (frames (new 4).lru_list ≡ [])
new-IsValid_example = new-IsValid 4

order-pin_example :
    (frames (pin 3 two_queued).lru_list ≡ remove 3 (frames two_queued.lru_list))
    × IsValid (pin 3 two_queued)
    × ((pin 3 two_queued).max_size ≡ two_queued.max_size)
order-pin_example = order-pin two_queued 3 two_queued-IsValid

order-unpin_example :
    (frames (unpin 7 two_queued).lru_list
      ≡ queue_unpin two_queued.max_size 7 (frames two_queued.lru_list))
    × IsValid (unpin 7 two_queued)
    × ((unpin 7 two_queued).max_size ≡ two_queued.max_size)
order-unpin_example = order-unpin two_queued 7 two_queued-IsValid

victim-none_example : victim (new 4) ≡ (new 4, none)
victim-none_example = victim-none (new 4) (new-IsValid 4).0 (new-IsValid 4).1

victim-some_example :
    ((victim two_queued).1 ≡ some 3)
    × (frames (victim two_queued).0.lru_list ≡ 5 ∷ [])
    × IsValid (victim two_queued).0
    × ((victim two_queued).0.max_size ≡ two_queued.max_size)
victim-some_example = victim-some two_queued 3 (5 ∷ []) two_queued-IsValid two_queued_frames

size-order_example : size two_queued ≡ length (frames two_queued.lru_list)
size-order_example = size-order two_queued two_queued-IsValid
