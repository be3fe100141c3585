-- ===== src/Storage/Buffer/Start.antt =====
-- The constructor of the buffer pool.
use db2024_main.Common.{
  ℕ, Distinct, [], arith, elem, int_eq, lookup, refl, suc, true, zero, ◌+◌, ◌<◌, ◌≡◌, ◌≤◌,
}
use db2024_main.Storage.Page.{PageId, page_id_eq, is_invalid}
use db2024_main.Storage.Disk.{Disk}
use db2024_main.Replacer.{Replacer}
use db2024_main.Storage.Buffer.Invariant.{view, IsConsistent}
use db2024_main.Storage.Buffer.{frames_from, new}

elem-frames_from : (n i f : ℕ) → elem f (frames_from n i) ≡ true → (i ≤ f) × (f < i + n)
unfolding frames_from elem
elem-frames_from zero i f h = cc (h)
elem-frames_from (suc n) i f h = ground (arith, elem-frames_from n (i + 1) f)

frames_from-elem : (n i f : ℕ) → i ≤ f → f < i + n → elem f (frames_from n i) ≡ true
unfolding frames_from elem
frames_from-elem zero i f h k = absurd (omega arith)
frames_from-elem (suc n) i f h k = ground (arith, frames_from-elem n (i + 1) f)

Distinct-frames_from : (n i : ℕ) → Distinct (frames_from n i)
unfolding frames_from
Distinct-frames_from zero i = tt
Distinct-frames_from (suc n) i =
    (ground (arith, elem-frames_from n (i + 1) i), Distinct-frames_from n (i + 1))

-- A new pool over a valid replacer that queues nothing and has room for every frame is consistent,
-- all its frames are free, and its pages are those of the disk.
pub new-IsConsistent :
    {A : Type 0} (blank : A) (R : Replacer) (n : ℕ) (disk : Disk A) (r : R.State)
    → R.IsValid r
    → R.order r ≡ []
    → n ≤ R.max_size r
    → IsConsistent R (new blank R n disk r)
      × ((k : PageId) → view k (new blank R n disk r) ≡ disk.stored k)
unfolding new is_invalid int_eq lookup elem view
new-IsConsistent blank R n disk r valid empty fits = (
  record {
    table_frame = λ id f h. cc (h);
    frame_table = λ f lt h. cc (h);
    free_frame = λ f h. (refl, ground (arith, elem-frames_from n 0 f h));
    idle_free = λ f lt h. frames_from-elem n 0 f (omega arith) (omega arith);
    free_distinct = Distinct-frames_from n 0;
    queued_frame = λ f h. ground (arith, empty);
    unpinned_queued = λ f lt h p. cc (h);
    replacer_valid = valid;
    replacer_fits = fits;
    clean_stored = λ f lt h p d. cc (h);
  },
  λ k. refl,
)
