-- ===== src/Process/RwLock/Counts.antt =====
-- How often a place occurs among the threads, as a sum of weights.
use star_os_kernel.Prelude.{
  ℕ, zero, suc, ◌+◌, ◌<◌, ◌≤◌, ◌≡◌, refl, ap, some, List, [], ◌∷◌, get_elem?, set, length,
  replicate, arith,
}
use star_os_kernel.Process.RwLock.{
  Place, outside, checking, backing_out, reading, draining, writing,
}

abbrev pub sum_of : (Place → ℕ) → List Place → ℕ
sum_of w [] = 0
sum_of w (p ∷ ps) = w p + sum_of w ps

same_weight :
    (w : Place → ℕ) (r p : Place) (ps : List Place) → get_elem? (r ∷ ps) 0 ≡ some p → w r ≡ w p
same_weight w r p ps e = (let h : r ≡ p = cc in ap w h)

pub sum_of-set :
    (w : Place → ℕ) (ps : List Place) (i : ℕ) (p q : Place)
    → get_elem? ps i ≡ some p
    → sum_of w (set ps i q) + w p ≡ sum_of w ps + w q
sum_of-set w [] i p q e = cc
sum_of-set w (r ∷ ps) zero p q e = omega (arith, same_weight w r p ps e)
sum_of-set w (r ∷ ps) (suc i) p q e = omega (arith, sum_of-set w ps i p q e)

pub sum_of-replicate : (w : Place → ℕ) (n : ℕ) → w outside ≡ 0 → sum_of w (replicate n outside) ≡ 0
sum_of-replicate w zero e = refl
sum_of-replicate w (suc n) e = omega (arith, sum_of-replicate w n e)

pub get_elem?-sum_of :
    (w : Place → ℕ) (ps : List Place) (i : ℕ) (p : Place)
    → get_elem? ps i ≡ some p
    → w p ≤ sum_of w ps
get_elem?-sum_of w [] i p e = cc
get_elem?-sum_of w (r ∷ ps) zero p e = omega (arith, same_weight w r p ps e)
get_elem?-sum_of w (r ∷ ps) (suc i) p e = omega (arith, get_elem?-sum_of w ps i p e)

-- Two threads weigh as much as both.
pub two_of-sum_of :
    (w : Place → ℕ) (ps : List Place) (i j : ℕ) (p q : Place)
    → i < j
    → get_elem? ps i ≡ some p
    → get_elem? ps j ≡ some q
    → w p + w q ≤ sum_of w ps
two_of-sum_of w [] i j p q lt e f = cc
two_of-sum_of w (r ∷ ps) i zero p q lt e f = absurd (omega arith)
two_of-sum_of w (r ∷ ps) zero (suc j) p q lt e f =
    omega (arith, same_weight w r p ps e, get_elem?-sum_of w ps j q f)
two_of-sum_of w (r ∷ ps) (suc i) (suc j) p q lt e f =
    omega (arith, two_of-sum_of w ps i j p q (omega arith) e f)

-- At most one for each thread.
pub sum_of-le :
    (w : Place → ℕ) (ps : List Place) → ((p : Place) → w p ≤ 1) → sum_of w ps ≤ length ps
sum_of-le w [] small = omega arith
sum_of-le w (p ∷ ps) small = omega (arith, small p, sum_of-le w ps small)

pub sum_of_mono :
    (v w : Place → ℕ) (ps : List Place) → ((p : Place) → v p ≤ w p) → sum_of v ps ≤ sum_of w ps
sum_of_mono v w [] h = omega arith
sum_of_mono v w (p ∷ ps) h = omega (arith, h p, sum_of_mono v w ps h)

-- The threads that have added to `readers`, those that read, those that have set `writer`, and those
-- that write.
abbrev pub counted : Place → ℕ
counted checking = 1
counted backing_out = 1
counted reading = 1
counted _ = 0

abbrev pub reads : Place → ℕ
reads reading = 1
reads _ = 0

abbrev pub claims : Place → ℕ
claims draining = 1
claims writing = 1
claims _ = 0

abbrev pub writes : Place → ℕ
writes writing = 1
writes _ = 0

pub counted-le : (p : Place) → counted p ≤ 1
counted-le p = ground arith

pub reads-counted : (p : Place) → reads p ≤ counted p
reads-counted p = ground arith

pub writes-claims : (p : Place) → writes p ≤ claims p
writes-claims p = ground arith
