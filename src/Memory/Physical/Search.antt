-- ===== src/Memory/Physical/Search.antt =====
-- The scan of `alloc_pages` of kernel/src/memory/physical.rs: it finds the first run of free pages.
use native.Mathlib.Decide.{ℕ_discrete, dec_lt}
use star_os_kernel.Prelude.{
  ℕ, zero, suc, ◌+◌, ◌<◌, ◌≤◌, ◌≡◌, ◌≢◌, ◌⊎◌, inl, inr, refl, ap, ◌∙◌, true, false, Option, none,
  some, ◌==◌, if◌then◌else◌, arith,
}
use star_os_kernel.Words.Marks.{mark}
use star_os_kernel.Memory.Physical.{PhysicalAllocator, find_run}
use star_os_kernel.Memory.Physical.Release.{is_page_free-mark}

-- The `count` pages from `s` on are free.
abbrev pub IsFreeRun : PhysicalAllocator → ℕ → ℕ → Type 0
IsFreeRun a count s = (i : ℕ) → s ≤ i → i < s + count → mark a.bitmap i ≡ 0

-- The first run of `count` free pages below page `last`.
abbrev pub IsFirstRun : PhysicalAllocator → ℕ → ℕ → ℕ → Type 0
IsFirstRun a count last s =
    (s + count ≤ last) × IsFreeRun a count s × ((q : ℕ) → q < s → ¬ IsFreeRun a count q)

abbrev pub Finds : PhysicalAllocator → ℕ → ℕ → Option ℕ → Type 0
Finds a count last found =
    ((found ≡ none) × ((q : ℕ) → q + count ≤ last → ¬ IsFreeRun a count q))
    ⊎ ((s : ℕ) × (found ≡ some s) × IsFirstRun a count last s)

-- The state of the scan before page `page`, where a current run starts at page `s`.
abbrev Scanning : PhysicalAllocator → ℕ → ℕ → Option ℕ → ℕ → ℕ → Type 0
Scanning a count page start consecutive s =
    (s + consecutive ≡ page)
    × (consecutive < count)
    × (consecutive ≢ 0 → start ≡ some s)
    × ((i : ℕ) → s ≤ i → i < page → mark a.bitmap i ≡ 0)
    × ((q : ℕ) → q < s → ¬ IsFreeRun a count q)

start_kept :
    (start : Option ℕ) (consecutive s page : ℕ)
    → s + consecutive ≡ page
    → (consecutive ≢ 0 → start ≡ some s)
    → (if consecutive == 0 then some page else start) ≡ some s
start_kept start consecutive s page e keep = elim (ℕ_discrete consecutive 0) [
  | yes z ↦ rw z (ap some (omega arith))
  | no nz ↦ (let test : (consecutive == 0) ≡ false = ground arith in rw test (keep nz))
]

scan_found :
    (a : PhysicalAllocator) (count left page : ℕ) (start : Option ℕ) (consecutive : ℕ)
    → mark a.bitmap page ≡ 0
    → consecutive + 1 ≡ count
    → find_run a count (suc left) page start consecutive
      ≡ (if consecutive == 0 then some page else start)
unfolding find_run
scan_found a count left page start consecutive z e =
    (let test : (consecutive + 1 == count) ≡ true = ground arith in
      rw (is_page_free-mark a page, z, test) refl)

scan_more :
    (a : PhysicalAllocator) (count left page : ℕ) (start : Option ℕ) (consecutive : ℕ)
    → mark a.bitmap page ≡ 0
    → consecutive + 1 ≢ count
    → find_run a count (suc left) page start consecutive
      ≡ find_run a count left
          (page + 1)
          (if consecutive == 0 then some page else start)
          (consecutive + 1)
unfolding find_run
scan_more a count left page start consecutive z ne =
    (let test : (consecutive + 1 == count) ≡ false = ground arith in
      rw (is_page_free-mark a page, z, test) refl)

scan_again :
    (a : PhysicalAllocator) (count left page : ℕ) (start : Option ℕ) (consecutive : ℕ)
    → mark a.bitmap page ≢ 0
    → find_run a count (suc left) page start consecutive ≡ find_run a count left (page + 1) none 0
unfolding find_run
scan_again a count left page start consecutive nz =
    (let test : (mark a.bitmap page == 0) ≡ false = ground arith in
      rw (is_page_free-mark a page, test) refl)

pub Finds-eq :
    (a : PhysicalAllocator) (count last last' : ℕ) (found found' : Option ℕ)
    → last ≡ last'
    → found ≡ found'
    → Finds a count last' found'
    → Finds a count last found
Finds-eq a count last last' found found' e f x = rw (e, f) x

free_run_longer :
    (a : PhysicalAllocator) (s page : ℕ)
    → mark a.bitmap page ≡ 0
    → ((i : ℕ) → s ≤ i → i < page → mark a.bitmap i ≡ 0)
    → (i : ℕ) → s ≤ i
    → i < page + 1
    → mark a.bitmap i ≡ 0
free_run_longer a s page z free i lo hi = elim (ℕ_discrete i page) [
  | yes e ↦ ap (mark a.bitmap) e ∙ z
  | no ne ↦ free i lo (omega arith)
]

-- A run that starts at or below a page that is not free, with too few pages before it, holds it.
no_run_across :
    (a : PhysicalAllocator) (count s page : ℕ)
    → page < s + count
    → mark a.bitmap page ≢ 0
    → ((q : ℕ) → q < s → ¬ IsFreeRun a count q)
    → (q : ℕ) → q < page + 1
    → ¬ IsFreeRun a count q
no_run_across a count s page reach nz before q hq run = elim (dec_lt q s) [
  | yes h ↦ before q h run
  | no h ↦ nz (run page (omega arith) (omega arith))
]

pub find_run-Finds :
    (a : PhysicalAllocator) (count left page : ℕ) (start : Option ℕ) (consecutive s : ℕ)
    → Scanning a count page start consecutive s
    → Finds a count (page + left) (find_run a count left page start consecutive)
unfolding find_run
find_run-Finds a count zero page start consecutive s (at, few, keep, free, before) =
    inl (
      refl,
      λ q fits run. elim (dec_lt q s) [ yes h ↦ before q h run | no h ↦ absurd (omega arith) ],
    )
find_run-Finds a count (suc left) page start consecutive s (at, few, keep, free, before) =
    elim (ℕ_discrete (mark a.bitmap page) 0) [
      | yes z ↦ elim (ℕ_discrete (consecutive + 1) count) [
        | yes e ↦ inr (
          s,
          scan_found a count left page start consecutive z e
              ∙ start_kept start consecutive s page at keep,
          (omega arith, λ i lo hi. free_run_longer a s page z free i lo (omega arith), before),
        )
        | no ne ↦
            Finds-eq a count (page + suc left) (page + 1 + left) _ _ (omega arith)
              (scan_more a count left page start consecutive z ne)
              (find_run-Finds a count left (page + 1)
                (if consecutive == 0 then some page else start) (consecutive + 1) s
                (
                  omega arith,
                  omega arith,
                  λ h. start_kept start consecutive s page at keep,
                  free_run_longer a s page z free,
                  before,
                ))
      ]
      | no nz ↦
          Finds-eq a count (page + suc left) (page + 1 + left) _ _ (omega arith)
            (scan_again a count left page start consecutive nz)
            (find_run-Finds a count left (page + 1) none 0 (page + 1) (
              omega arith,
              omega arith,
              λ h. absurd (h refl),
              λ i lo hi. absurd (omega arith),
              no_run_across a count s page (omega arith) nz before,
            ))
    ]
