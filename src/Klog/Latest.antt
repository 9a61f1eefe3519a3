-- ===== src/Klog/Latest.antt =====
-- What `read_last` of kernel/src/klog.rs gives: the newest entries, in the order of their logging.
use native.Mathlib.Decide.{ℕ_discrete}
use mathlib.Core.List.{append-nil, append_assoc}
use star_os_kernel.Prelude.{
  ℕ, zero, suc, ◌+◌, ◌-◌, ◌%◌, ◌^◌, ◌<◌, ◌≤◌, ◌≡◌, inl, inr, refl, sym, subst, ap, ◌∙◌, min, true,
  false, Bool-cases, some, List, [], ◌∷◌, ◌++◌, store, store_self, store_ne, length, length-append,
  get_elem?, drop, drop_all, String, ltb, leb, if◌then◌else◌, arith,
}
use star_os_kernel.Klog.{
  Level, info, as_u8, LogEntry, Klog, log_buffer_size, initial, set_level, new_entry, log,
  entries_from, read_last,
}

-- A call that changes the log.
pub data Call : Type 0 where
  level : Level → Call
  entry : Level → String → List ℕ → ℕ → Call

unfoldable pub call : Klog → Call → Klog
call k (level l) = set_level k l
call k (entry l module_name msg now) = log k l module_name msg now

unfoldable pub run : Klog → List Call → Klog
run k [] = k
run k (c ∷ cs) = run (call k c) cs

-- The entries of the calls that pass the level of their time.
unfoldable pub kept : ℕ → List Call → List LogEntry
kept limit [] = []
kept limit (level l ∷ cs) = kept (as_u8 l) cs
kept limit (entry l module_name msg now ∷ cs) =
    let rest = kept limit cs in
    if ltb limit (as_u8 l) then rest else new_entry l module_name msg now ∷ rest

-- The ring holds the newest entries of a history.
unfoldable pub Holds : Klog → List LogEntry → Type 0
Holds k history =
    (k.write_pos ≡ length history)
    × (k.count ≡ length history)
    × ((i : ℕ)
        → i < length history
        → length history ≤ i + log_buffer_size
        → some (k.buffer (i % log_buffer_size)) ≡ get_elem? history i)

drop-get_elem? :
    (n : ℕ) (xs : List LogEntry) (x : LogEntry)
    → get_elem? xs n ≡ some x
    → drop n xs ≡ x ∷ drop (n + 1) xs
drop-get_elem? zero [] x h = cc
drop-get_elem? zero (y ∷ xs) x h = ap (λ (z : LogEntry). z ∷ xs) (cc)
drop-get_elem? (suc n) [] x h = cc
drop-get_elem? (suc n) (y ∷ xs) x h =
    drop-get_elem? n xs x h
    ∙ ap (λ (m : ℕ). x ∷ drop m (y ∷ xs)) (let e : suc (n + 1) ≡ suc n + 1 = omega arith in e)

get_elem?-append :
    (xs ys : List LogEntry) (i : ℕ) → i < length xs → get_elem? (xs ++ ys) i ≡ get_elem? xs i
get_elem?-append [] ys i h = absurd (omega arith)
get_elem?-append (x ∷ xs) ys zero h = refl
get_elem?-append (x ∷ xs) ys (suc i) h = get_elem?-append xs ys i (omega arith)

get_elem?_last :
    (xs : List LogEntry) (x : LogEntry) (i : ℕ)
    → i ≡ length xs
    → get_elem? (xs ++ (x ∷ [])) i ≡ some x
get_elem?_last [] x zero h = refl
get_elem?_last [] x (suc i) h = absurd (omega arith)
get_elem?_last (y ∷ xs) x zero h = absurd (omega arith)
get_elem?_last (y ∷ xs) x (suc i) h = get_elem?_last xs x i (omega arith)

logged-Holds :
    (k : Klog) (history : List LogEntry) (l : Level) (module_name : String) (msg : List ℕ) (now : ℕ)
    → Holds k history
    → length history + 1 < 2 ^ 64
    → ltb k.log_level (as_u8 l) ≡ false
    → Holds (log k l module_name msg now) (history ++ (new_entry l module_name msg now ∷ []))
unfolding Holds log
logged-Holds k history l module_name msg now (pos, count, ring) room passes =
    (let new = new_entry l module_name msg now in
      let longer : length (history ++ (new ∷ [])) ≡ length history + 1 =
        length-append history (new ∷ []) in
      rw passes (
        omega arith,
        omega arith,
        λ i hi near. elim (ℕ_discrete i (length history)) [
          | yes e ↦
              (let slot : i % log_buffer_size ≡ k.write_pos % log_buffer_size = omega arith in
                ap some (
                  ap (store k.buffer (k.write_pos % log_buffer_size) new) slot
                  ∙ store_self k.buffer (k.write_pos % log_buffer_size) new)
                ∙ sym (get_elem?_last history new i e))
          | no ne ↦
              ap some (
                store_ne k.buffer (k.write_pos % log_buffer_size) (i % log_buffer_size) new
                  (λ f. omega arith))
              ∙ ring i (omega arith) (omega arith)
              ∙ sym (get_elem?-append history (new ∷ []) i (omega arith))
        ],
      ))

entries_from-drop :
    (k : Klog) (history : List LogEntry) (n start : ℕ)
    → Holds k history
    → start + n ≡ length history
    → n ≤ log_buffer_size
    → entries_from k start n ≡ drop start history
unfolding Holds entries_from
entries_from-drop k history zero start v e small = sym (drop_all start history (omega arith))
entries_from-drop k history (suc n) start v e small =
    ap (λ (rest : List LogEntry). k.buffer (start % log_buffer_size) ∷ rest)
      (entries_from-drop k history n (start + 1) v (omega arith) (omega arith))
    ∙ sym (
        drop-get_elem? start history (k.buffer (start % log_buffer_size))
          (sym (v.2 start (omega arith) (omega arith))))

level_kept :
    (k : Klog) (l : Level) (module_name : String) (msg : List ℕ) (now : ℕ)
    → (log k l module_name msg now).log_level ≡ k.log_level
unfolding log
level_kept k l module_name msg now = elim (Bool-cases (ltb k.log_level (as_u8 l))) [
  | inl e ↦ rw e refl
  | inr e ↦ rw e refl
]

log_hidden :
    (k : Klog) (l : Level) (module_name : String) (msg : List ℕ) (now : ℕ)
    → ltb k.log_level (as_u8 l) ≡ true
    → log k l module_name msg now ≡ k
unfolding log
log_hidden k l module_name msg now e = rw e refl

kept-entry :
    (limit : ℕ) (l : Level) (module_name : String) (msg : List ℕ) (now : ℕ) (cs : List Call)
    → kept limit (entry l module_name msg now ∷ cs) ≡ (
        if ltb limit (as_u8 l)
        then kept limit cs
        else new_entry l module_name msg now ∷ kept limit cs)
unfolding kept
kept-entry limit l module_name msg now cs = refl

set_level-Holds :
    (k : Klog) (history : List LogEntry) (l : Level)
    → Holds k history
    → Holds (set_level k l) history
unfolding Holds set_level
set_level-Holds k history l v = v

-- Of fewer than 2 ^ 64 calls, the kept entries follow the history.
later-Holds :
    (k : Klog) (history : List LogEntry) (cs : List Call)
    → Holds k history
    → length history + length cs < 2 ^ 64
    → Holds (run k cs) (history ++ kept k.log_level cs)
unfolding run kept call set_level
later-Holds k history [] v room = subst (Holds k) (sym (append-nil history)) v
later-Holds k history (level l ∷ cs) v room =
    later-Holds (set_level k l) history cs (set_level-Holds k history l v) (omega arith)
later-Holds k history (entry l module_name msg now ∷ cs) v room =
    elim (Bool-cases (ltb k.log_level (as_u8 l))) [
      | inl hidden ↦
          rw (log_hidden k l module_name msg now hidden, hidden)
            (later-Holds k history cs v (omega arith))
      | inr passes ↦
          (let new = new_entry l module_name msg now in
            let k' = log k l module_name msg now in
            let later : Holds (run k' cs) ((history ++ (new ∷ [])) ++ kept k'.log_level cs) =
              later-Holds k' (history ++ (new ∷ [])) cs
                (logged-Holds k history l module_name msg now v (omega arith) passes)
                (omega (arith, length-append history (new ∷ []))) in
            rw passes (
              subst (Holds (run k' cs))
                (append_assoc history (new ∷ []) (kept k'.log_level cs)
                  ∙ ap (λ (n : ℕ). history ++ (new ∷ kept n cs))
                      (level_kept k l module_name msg now))
                later))
    ]

length-kept : (limit : ℕ) (cs : List Call) → length (kept limit cs) ≤ length cs
unfolding kept
length-kept limit [] = omega arith
length-kept limit (level l ∷ cs) = omega (arith, length-kept (as_u8 l) cs)
length-kept limit (entry l module_name msg now ∷ cs) = ground (arith, length-kept limit cs)

initial-Holds : Holds initial []
unfolding Holds initial
initial-Holds = (refl, refl, λ i h near. absurd (omega arith))

read_last-Holds :
    (k : Klog) (history : List LogEntry) (wanted : ℕ)
    → Holds k history
    → read_last k wanted ≡ drop (length history - min wanted log_buffer_size) history
unfolding read_last Holds
read_last-Holds k history wanted (pos, count, ring) =
    (let read_count : ℕ = min wanted (min k.count log_buffer_size) in
      let test : leb (min wanted (min k.count log_buffer_size)) k.write_pos ≡ true = ground arith in
      let at : k.write_pos - read_count ≡ length history - min wanted log_buffer_size =
        omega arith in
      rw test (
        entries_from-drop k history read_count (k.write_pos - read_count) (pos, count, ring)
          (omega arith) (omega arith)
        ∙ ap (λ (n : ℕ). drop n history) at))

-- After fewer than 2 ^ 64 calls of `log` and `set_level` from the start on, `read_last` of `wanted`
-- entries gives the newest `wanted`, at most 256, of those that passed the level of their time, in
-- the order of their calls; and all of them where there are fewer.
pub read_last_newest :
    (cs : List Call) (wanted : ℕ)
    → length cs < 2 ^ 64
    → read_last (run initial cs) wanted
      ≡ drop (length (kept (as_u8 info) cs) - min wanted log_buffer_size) (kept (as_u8 info) cs)
unfolding initial
read_last_newest cs wanted room =
    read_last-Holds (run initial cs) (kept (as_u8 info) cs) wanted
      (later-Holds initial [] cs initial-Holds (omega arith))
