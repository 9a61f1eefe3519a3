-- ===== src/Process/SharedMemory/Count.antt =====
-- The reference count against the number of holders of the region.
use star_os_kernel.Prelude.{
  ℕ, suc, ◌+◌, ◌-◌, ◌^◌, ◌<◌, ◌≡◌, refl, ap, List, [], ◌∷◌, Bool, false, Result, ok, err, length,
  ◌==◌, arith,
}
use star_os_kernel.Error.{KernelError, invalid_parameter}
use star_os_kernel.Process.SharedMemory.{SharedMemory, attach, detach}

pub data Op : Type 0 where
  attaches detaches : Op

pub data Reply : Type 0 where
  attached : Result (Unit {0}) KernelError → Reply
  detached : Result Bool KernelError → Reply

pub run : SharedMemory → List Op → List Reply
run s [] = []
run s (attaches ∷ ops) = let (s', r) = attach s in attached r ∷ run s' ops
run s (detaches ∷ ops) = let (s', r) = detach s in detached r ∷ run s' ops

-- The specification counts holders: a detach says whether the last holder has gone.
pub run_holders : ℕ → List Op → List Reply
run_holders n [] = []
run_holders n (attaches ∷ ops) = attached (ok tt) ∷ run_holders (suc n) ops
run_holders n (detaches ∷ ops) = detached (ok (n == 1)) ∷ run_holders (n - 1) ops

-- No call detaches where nobody holds the region.
abbrev pub Balanced : ℕ → List Op → Type 0
Balanced n [] = Unit
Balanced n (attaches ∷ ops) = Balanced (suc n) ops
Balanced n (detaches ∷ ops) = (0 < n) × Balanced (n - 1) ops

attach_lem :
    (s : SharedMemory) (n : ℕ)
    → s.ref_count ≡ n
    → suc n < 2 ^ 64
    → attach s ≡ (record s { ref_count = suc n }, ok tt)
unfolding attach
attach_lem s n e h = ground arith

detach_lem :
    (s : SharedMemory) (n : ℕ)
    → s.ref_count ≡ n
    → 0 < n
    → n < 2 ^ 64
    → detach s ≡ (record s { ref_count = n - 1 }, ok (n == 1))
unfolding detach
detach_lem s n e h k = ground arith

-- For every balanced list of calls during which fewer than 2 ^ 64 holders can arise, each attach
-- succeeds, and each detach succeeds and reports whether it was the last holder's.
pub run_counts_holders :
    (ops : List Op) (s : SharedMemory) (n : ℕ)
    → s.ref_count ≡ n
    → n + length ops < 2 ^ 64
    → Balanced n ops
    → run s ops ≡ run_holders n ops
unfolding run run_holders
run_counts_holders [] s n e h b = refl
run_counts_holders (attaches ∷ ops) s n e h b = rw (attach_lem s n e (omega arith)) (
    ap (λ t. attached (ok tt) ∷ t)
      (run_counts_holders ops (record s { ref_count = suc n }) (suc n) refl (omega arith) b))
run_counts_holders (detaches ∷ ops) s n e h b = rw (detach_lem s n e b.0 (omega arith)) (
    ap (λ t. detached (ok (n == 1)) ∷ t)
      (run_counts_holders ops (record s { ref_count = n - 1 }) (n - 1) refl (omega arith) b.1))

-- A detach where nobody holds the region is refused, and yet leaves the count at 2 ^ 64 - 1, so
-- that the next detach succeeds.
pub detach_underflow :
    (s : SharedMemory)
    → s.ref_count ≡ 0
    → ((detach s).1 ≡ err (invalid_parameter "Invalid ref count"))
      × ((detach s).0.ref_count ≡ 2 ^ 64 - 1)
      × ((detach (detach s).0).1 ≡ ok false)
unfolding detach
detach_underflow s e = rw e (refl, refl, refl)
