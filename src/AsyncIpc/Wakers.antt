-- ===== src/AsyncIpc/Wakers.antt =====
-- What the wakers of a channel of kernel/src/async_ipc.rs do to the places of the threads.
use star_os_kernel.Prelude.{
  ℕ, ◌≡◌, inl, inr, refl, sym, ◌∙◌, Bool, true, false, Bool-cases, List, [], ◌∷◌, ◌++◌, Array,
  store, ◌==◌, if◌then◌else◌, arith,
}
use star_os_kernel.AsyncIpc.{
  Place, outside, sending, waking, closing, polling, registering, rechecking, waiting, System, go,
  woken, wake_each, drain,
}

unfoldable pub is_in : ℕ → List ℕ → Bool
is_in i [] = false
is_in i (w ∷ wakers) = let later = is_in i wakers in if w == i then true else later

-- The thread depends on its waker.
unfoldable pub awaits : Place → Bool
awaits outside = false
awaits (sending msg) = false
awaits waking = false
awaits closing = false
awaits polling = false
awaits registering = false
awaits (rechecking true) = false
awaits (rechecking false) = true
awaits waiting = true

pub is_in-append :
    (i w : ℕ) (wakers : List ℕ) → is_in i wakers ≡ true → is_in i (wakers ++ (w ∷ [])) ≡ true
unfolding is_in
is_in-append i w [] h = cc
is_in-append i w (v ∷ wakers) h = elim (Bool-cases (v == i)) [
  | inl e ↦ rw e refl
  | inr e ↦ rw e (is_in-append i w wakers (sym (rw e refl) ∙ h))
]

pub is_in_last : (i : ℕ) (wakers : List ℕ) → is_in i (wakers ++ (i ∷ [])) ≡ true
unfolding is_in
is_in_last i [] = (let test : (i == i) ≡ true = ground arith in rw test refl)
is_in_last i (v ∷ wakers) = elim (Bool-cases (v == i)) [
  | inl e ↦ rw e refl
  | inr e ↦ rw e (is_in_last i wakers)
]

pub awaits-woken : (p : Place) → awaits (woken p) ≡ false
unfolding awaits woken
awaits-woken outside = refl
awaits-woken (sending msg) = refl
awaits-woken waking = refl
awaits-woken closing = refl
awaits-woken polling = refl
awaits-woken registering = refl
awaits-woken (rechecking b) = refl
awaits-woken waiting = refl

-- A thread that does not depend on its waker does not so after others are woken.
wake_each_free :
    (wakers : List ℕ) (threads : Array Place) (i : ℕ)
    → awaits (threads i) ≡ false
    → awaits (wake_each wakers threads i) ≡ false
unfolding wake_each
wake_each_free [] threads i h = h
wake_each_free (w ∷ wakers) threads i h =
    wake_each_free wakers (store threads w (woken (threads w))) i
      (elim (Bool-cases (i == w)) [ inl e ↦ rw e (awaits-woken (threads w)) | inr e ↦ rw e h ])

wake_each_listed :
    (wakers : List ℕ) (threads : Array Place) (i : ℕ)
    → is_in i wakers ≡ true
    → awaits (wake_each wakers threads i) ≡ false
unfolding wake_each is_in
wake_each_listed [] threads i h = cc
wake_each_listed (w ∷ wakers) threads i h = elim (Bool-cases (w == i)) [
  | inl e ↦
      (let test : (i == w) ≡ true = ground arith in
        wake_each_free wakers (store threads w (woken (threads w))) i
          (rw test (awaits-woken (threads w))))
  | inr e ↦ wake_each_listed wakers (store threads w (woken (threads w))) i (sym (rw e refl) ∙ h)
]

outside_free : awaits outside ≡ false
unfolding awaits
outside_free = refl

-- Where each thread that depends on its waker has it in the list, none does so after the list is
-- drained.
pub drain_wakes_all :
    (s : System) (i : ℕ)
    → ((k : ℕ) → awaits (s.threads k) ≡ true → is_in k s.channel.wakers ≡ true)
    → (k : ℕ) → awaits ((drain s i).threads k) ≡ false
unfolding drain go
drain_wakes_all s i listed k = elim (Bool-cases (k == i)) [
  | inl e ↦ rw e outside_free
  | inr e ↦ rw e (elim (Bool-cases (awaits (s.threads k))) [
    | inl a ↦ wake_each_listed s.channel.wakers s.threads k (listed k a)
    | inr a ↦ wake_each_free s.channel.wakers s.threads k a
  ])
]
