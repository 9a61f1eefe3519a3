-- ===== src/Memory/Slab/Cut.antt =====
-- The free memory of the slabs of kernel/src/memory/heap.rs, and a page that is cut for a slab.
use star_os_kernel.Prelude.{
  ℕ, zero, suc, ◌+◌, ◌-◌, ◌*◌, ◌/◌, ◌<◌, ◌≡◌, inl, inr, refl, sym, ap, fun_ext, ◌∙◌, Bool, true,
  false, Bool-cases, List, ◌∷◌, Array, store, ◌==◌, if◌then◌else◌, arith,
}
use star_os_kernel.Memory.Physical.{PhysAddr}
use star_os_kernel.Memory.Buddy.{BuddyAllocator}
use star_os_kernel.Memory.Buddy.Cover.{
  inside, inside_join, blocks_over, cover_below, cover_below-store, cover,
}
use star_os_kernel.Memory.Slab.{Slab, SlabAllocator, sizes, cut_page, set_list}
use star_os_kernel.Memory.Slab.Sizes.{IsReady}

-- The blocks that a page is cut into make up the page.
blocks_over-cut_page :
    (page size n : ℕ) (l : List PhysAddr) (x : PhysAddr)
    → blocks_over size (cut_page page size n l) x + inside page size x
      ≡ blocks_over size l x + inside page (suc n * size) x
unfolding blocks_over cut_page
blocks_over-cut_page page size zero l x =
    ap (λ (t : ℕ). blocks_over size l x + inside page t x)
      (let e : size ≡ 1 * size = omega arith in e)
blocks_over-cut_page page size (suc n) l x =
    (let e : inside page (suc (suc n) * size) x ≡ inside page (suc n * size + size) x =
        ap (λ (t : ℕ). inside page t x)
          (let f : suc (suc n) * size ≡ suc n * size + size = grind arith in f) in
      omega (arith, blocks_over-cut_page page size n l x, inside_join page (suc n * size) size x))

abbrev lists : Array Slab → Array (List PhysAddr)
lists slabs i = (slabs i).free_list

-- How many free blocks of the slabs contain address `x`.
unfoldable pub slab_cover : SlabAllocator → PhysAddr → ℕ
slab_cover s x = cover_below (λ i. sizes i) (lists s.slabs) 9 x

chosen_list :
    (c : Bool) (a b : Slab)
    → (if c then a else b).free_list ≡ (if c then a.free_list else b.free_list)
chosen_list true a b = refl
chosen_list false a b = refl

lists-set_list :
    (s : SlabAllocator) (i : ℕ) (l : List PhysAddr)
    → lists (set_list s i l).slabs ≡ store (lists s.slabs) i l
unfolding set_list
lists-set_list s i l =
    fun_ext (λ j. chosen_list (j == i) (record (s.slabs i) { free_list = l }) (s.slabs j))

pub slab_cover-set_list :
    (s : SlabAllocator) (i : ℕ) (l : List PhysAddr) (x : PhysAddr)
    → i < 9
    → slab_cover (set_list s i l) x + blocks_over (sizes i) (s.slabs i).free_list x
      ≡ slab_cover s x + blocks_over (sizes i) l x
unfolding slab_cover
slab_cover-set_list s i l x h =
    ap
      (λ (f : Array (List PhysAddr)).
        cover_below (λ j. sizes j) f 9 x + blocks_over (sizes i) (s.slabs i).free_list x)
      (lists-set_list s i l)
    ∙ cover_below-store (λ j. sizes j) (lists s.slabs) 9 i l x h

-- How many free blocks of either allocator contain address `x`.
unfoldable pub free_over : SlabAllocator → PhysAddr → ℕ
free_over s x = slab_cover s x + cover s.buddy x

pub set_list-IsReady :
    (s : SlabAllocator) (i : ℕ) (l : List PhysAddr) → IsReady s → IsReady (set_list s i l)
unfolding set_list
set_list-IsReady s i l ready j h = elim (Bool-cases (j == i)) [
  | inl e ↦ (let same : j ≡ i = ground arith in rw e (ready i (omega arith) ∙ ap sizes (sym same)))
  | inr e ↦ rw e (ready j h)
]

pub cover_kept :
    (s : SlabAllocator) (i : ℕ) (l : List PhysAddr) (x : PhysAddr)
    → cover (set_list s i l).buddy x ≡ cover s.buddy x
unfolding set_list
cover_kept s i l x = refl

pub taken_out :
    (s : SlabAllocator) (i : ℕ) (block : PhysAddr) (rest : List PhysAddr) (x : PhysAddr)
    → i < 9
    → (s.slabs i).free_list ≡ block ∷ rest
    → free_over (set_list s i rest) x + inside block (sizes i) x ≡ free_over s x
unfolding free_over blocks_over
taken_out s i block rest x h e =
    (let f : blocks_over (sizes i) (s.slabs i).free_list x
          ≡ inside block (sizes i) x + blocks_over (sizes i) rest x =
        ap (λ (q : List PhysAddr). blocks_over (sizes i) q x) e in
      omega (arith, slab_cover-set_list s i rest x h, cover_kept s i rest x))

whole_page : (i : ℕ) → i < 9 → suc (4096 / sizes i - 1) * sizes i ≡ 4096
whole_page zero h = refl
whole_page (suc zero) h = refl
whole_page (suc (suc zero)) h = refl
whole_page (suc (suc (suc zero))) h = refl
whole_page (suc (suc (suc (suc zero)))) h = refl
whole_page (suc (suc (suc (suc (suc zero))))) h = refl
whole_page (suc (suc (suc (suc (suc (suc zero)))))) h = refl
whole_page (suc (suc (suc (suc (suc (suc (suc zero))))))) h = refl
whole_page (suc (suc (suc (suc (suc (suc (suc (suc zero)))))))) h = refl
whole_page (suc (suc (suc (suc (suc (suc (suc (suc (suc i))))))))) h = absurd (omega arith)

-- The slab after a page of the buddy allocator is cut for it.
abbrev pub cut : SlabAllocator → ℕ → BuddyAllocator → PhysAddr → SlabAllocator
cut s i buddy' page =
    set_list (record s { buddy = buddy' }) i
      (cut_page page (s.slabs i).size (4096 / (s.slabs i).size - 1) (s.slabs i).free_list)

pub slab_cover_kept :
    (s : SlabAllocator) (buddy' : BuddyAllocator) (x : PhysAddr)
    → slab_cover (record s { buddy = buddy' }) x ≡ slab_cover s x
unfolding slab_cover
slab_cover_kept s buddy' x = refl

pub cut_over :
    (s : SlabAllocator) (i : ℕ) (buddy' : BuddyAllocator) (page x : PhysAddr)
    → i < 9
    → IsReady s
    → free_over (cut s i buddy' page) x + inside page (sizes i) x
      ≡ slab_cover s x + cover buddy' x + inside page 4096 x
unfolding free_over
cut_over s i buddy' page x h ready =
    (let s' : SlabAllocator = record s { buddy = buddy' } in
      let l = cut_page page (sizes i) (4096 / sizes i - 1) (s.slabs i).free_list in
      let same : cut s i buddy' page ≡ set_list s' i l =
        ap (λ (n : ℕ). set_list s' i (cut_page page n (4096 / n - 1) (s.slabs i).free_list))
          (ready i h) in
      let kept : slab_cover s' x ≡ slab_cover s x = slab_cover_kept s buddy' x in
      omega (
        arith,
        ap (λ (q : SlabAllocator). slab_cover q x) same,
        ap (λ (q : SlabAllocator). cover q.buddy x) same,
        slab_cover-set_list s' i l x h,
        cover_kept s' i l x,
        blocks_over-cut_page page (sizes i) (4096 / sizes i - 1) (s.slabs i).free_list x,
        ap (λ (n : ℕ). inside page n x) (whole_page i h),
      ))

pub buddy_kept :
    (s : SlabAllocator) (i : ℕ) (buddy' : BuddyAllocator) (page : PhysAddr)
    → (cut s i buddy' page).buddy ≡ buddy'
unfolding set_list
buddy_kept s i buddy' page = refl
