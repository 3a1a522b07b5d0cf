-- ===== src/Workflow/Children/Cells.antt =====
-- The array of children as a list: what an insertion and a removal do to it.
use mbed_ce_client_for_azure.Base.{
  ℕ, zero, suc, ◌+◌, ◌-◌, ◌*◌, ◌/◌, ◌≤◌, ◌<◌, ◌≡◌, refl, ap, arith, ◌==◌, true, false, none, some,
  List, [], ◌∷◌, ltb, if◌then◌else◌, ok, fault, length, Option-cases, Bool-cases, inl, inr, ℤ, pos,
  negsuc,
}
use mbed_ce_client_for_azure.Workflow.Parson.{Json}
use mbed_ce_client_for_azure.Workflow.{Cell, Workflow}
use mbed_ce_client_for_azure.Workflow.Children.{
  moved, memmove, pointer_size, bytes_to_move, in_range, make_room, close_gap,
}

-- The first `n` words of an array.
unfoldable pub cell_list : (ℕ → Cell) → ℕ → List Cell
cell_list f zero = []
cell_list f (suc n) = f 0 ∷ cell_list (λ i. f (i + 1)) n

unfoldable pub insert_at : ℕ → Cell → List Cell → List Cell
insert_at zero c xs = c ∷ xs
insert_at (suc i) c [] = c ∷ []
insert_at (suc i) c (x ∷ xs) = x ∷ insert_at i c xs

unfoldable pub remove_at : ℕ → List Cell → List Cell
remove_at i [] = []
remove_at zero (x ∷ xs) = xs
remove_at (suc i) (x ∷ xs) = x ∷ remove_at i xs

pub remove_at-insert_at :
    (i : ℕ) (c : Cell) (xs : List Cell) → i ≤ length xs → remove_at i (insert_at i c xs) ≡ xs
unfolding insert_at remove_at
remove_at-insert_at zero c xs h = refl
remove_at-insert_at (suc i) c [] h = elim h [ ]
remove_at-insert_at (suc i) c (x ∷ xs) h =
    ap (λ t. x ∷ t) (remove_at-insert_at i c xs (omega arith))

pub length-cell_list : (f : ℕ → Cell) (n : ℕ) → length (cell_list f n) ≡ n
unfolding cell_list
length-cell_list f zero = refl
length-cell_list f (suc n) = ap suc (length-cell_list (λ i. f (i + 1)) n)

pub cell_list-eq :
    (f g : ℕ → Cell) (n : ℕ) → ((i : ℕ) → i < n → f i ≡ g i) → cell_list f n ≡ cell_list g n
unfolding cell_list
cell_list-eq f g zero same = refl
cell_list-eq f g (suc n) same = cc (
  same 0 (omega arith),
  cell_list-eq (λ i. f (i + 1)) (λ i. g (i + 1)) n λ i h. same (i + 1) (omega arith),
)

cell_list-insert_at :
    (f g : ℕ → Cell) (i n : ℕ) (c : Cell)
    → i ≤ n
    → ((j : ℕ) → j < i → g j ≡ f j)
    → g i ≡ c
    → ((j : ℕ) → i ≤ j → j < n → g (j + 1) ≡ f j)
    → cell_list g (suc n) ≡ insert_at i c (cell_list f n)
unfolding cell_list insert_at
cell_list-insert_at f g zero n c h before at after =
    cc (at, cell_list-eq (λ j. g (j + 1)) f n λ j l. after j (omega arith) l)
cell_list-insert_at f g (suc i) zero c h before at after = elim h [ ]
cell_list-insert_at f g (suc i) (suc n) c h before at after =
    let e : suc i ≡ i + 1 = omega arith in
    cc (
      before 0 (omega arith),
      cell_list-insert_at (λ j. f (j + 1)) (λ j. g (j + 1)) i n c (omega arith)
          (λ j l. before (j + 1) (omega arith)) (rw (← e) at)
          (λ j l l'. after (j + 1) (omega arith) (omega arith)),
    )

cell_list-remove_at :
    (f g : ℕ → Cell) (i n : ℕ)
    → i ≤ n
    → ((j : ℕ) → j < i → g j ≡ f j)
    → ((j : ℕ) → i ≤ j → j < n → g j ≡ f (j + 1))
    → cell_list g n ≡ remove_at i (cell_list f (suc n))
unfolding cell_list remove_at
cell_list-remove_at f g zero n h before after =
    cell_list-eq g (λ j. f (j + 1)) n λ j l. after j (omega arith) l
cell_list-remove_at f g (suc i) zero h before after = elim h [ ]
cell_list-remove_at f g (suc i) (suc n) h before after = cc (
  before 0 (omega arith),
  cell_list-remove_at (λ j. f (j + 1)) (λ j. g (j + 1)) i n (omega arith)
      (λ j l. before (j + 1) (omega arith)) (λ j l l'. after (j + 1) (omega arith) (omega arith)),
)

moved-lt :
    (dst src bytes : ℕ) (cells : ℕ → Cell) (j : ℕ) → j < dst → moved dst src bytes cells j ≡ cells j
unfolding moved
moved-lt dst src bytes cells j h = ground arith

moved-inside :
    (dst src bytes : ℕ) (cells : ℕ → Cell) (j k : ℕ)
    → dst ≤ j
    → j < dst + bytes / pointer_size
    → j - dst + src ≡ k
    → moved dst src bytes cells j ≡ cells k
unfolding moved
moved-inside dst src bytes cells j k h h' e =
    let first : ltb j dst ≡ false = ground arith in
    let second : ltb j (dst + bytes / pointer_size) ≡ true = ground arith in
    rw (moved, first, second, e)

in_range-lt : (index : ℤ) (count i : ℕ) → in_range index count ≡ some i → i < count
in_range-lt (pos k) count i h = ground arith
in_range-lt (negsuc k) count i h = ground arith

appended :
    (f : ℕ → Cell) (n : ℕ) (c : Cell)
    → cell_list (λ j. if j == n then c else f j) (n + 1) ≡ insert_at n c (cell_list f n)
appended f n c =
    let e : n + 1 ≡ suc n = omega arith in
    rw e (
      cell_list-insert_at f (λ j. if j == n then c else f j) n n c (omega arith)
        (λ j h. ground arith) (ground arith) (λ j h h'. absurd (omega arith)))

inserted :
    (f : ℕ → Cell) (i n : ℕ) (c : Cell)
    → i < n
    → cell_list (λ j. if j == i then c else moved (i + 1) i ((n - i) * pointer_size) f j) (n + 1)
      ≡ insert_at i c (cell_list f n)
inserted f i n c h =
    let e : n + 1 ≡ suc n = omega arith in
    let bytes = (n - i) * pointer_size in
    rw e (
      cell_list-insert_at f (λ j. if j == i then c else moved (i + 1) i bytes f j) i n c
        (omega arith) (λ j l. ground (arith, moved-lt (i + 1) i bytes f j (omega arith)))
        (ground arith)
        (λ j l l'. ground (
          arith,
          moved-inside (i + 1) i bytes f (j + 1) j (omega arith) (omega arith) (omega arith),
        )))

removed :
    (f : ℕ → Cell) (i n : ℕ)
    → i ≤ n
    → cell_list (moved i (i + 1) (bytes_to_move (suc n) i) f) n ≡ remove_at i (cell_list f (suc n))
removed f i n h =
    let bytes = bytes_to_move (suc n) i in
    cell_list-remove_at f (moved i (i + 1) bytes f) i n h (λ j l. moved-lt i (i + 1) bytes f j l)
      λ j l l'. moved-inside i (i + 1) bytes f j (j + 1) l (omega arith) (omega arith)

removed_last : (f : ℕ → Cell) (i n : ℕ) → i ≡ n → cell_list f n ≡ remove_at i (cell_list f (suc n))
removed_last f i n e =
    cell_list-remove_at f f i n (omega arith) (λ j l. refl) λ j l l'. absurd (omega arith)

-- Where the new child goes.
abbrev pub place : ℤ → ℕ → ℕ
place index count = elim (in_range index count) [ none ↦ count | some i ↦ i ]

module _ {J : Json} where
  abbrev pub child_list : Workflow J → List Cell
  child_list w = cell_list w.children w.child_count

  -- The place that is made, and the list with a child put there.
  pub make_room_lem :
      (index : ℤ) (w : Workflow J) (c : Cell)
      → w.child_count < w.children_max
      → (cells : ℕ → Cell) × (make_room index w ≡ ok (place index w.child_count, cells))
        × (cell_list
              (λ j. if j == place index w.child_count then c else cells j)
              (w.child_count + 1)
            ≡ insert_at (place index w.child_count) c (child_list w))
  unfolding make_room memmove
  make_room_lem index w c room = elim (Option-cases (in_range index w.child_count)) [
    | inl end ↦ (w.children, ground arith, rw (end, place) (appended w.children w.child_count c))
    | inr (i, is) ↦ (
      moved (i + 1) i ((w.child_count - i) * pointer_size) w.children,
      ground (arith, in_range-lt index w.child_count i is),
      rw (is, place) (inserted w.children i w.child_count c (in_range-lt index w.child_count i is)),
    )
  ]

  -- The gap is closed, if there is none or the bytes that are moved lie inside the array.
  pub close_gap_lem :
      (i n : ℕ) (w : Workflow J)
      → w.child_count ≡ suc n
      → i ≤ n
      → (i < n → pointer_size * w.child_count + 3 * (i + 1) ≤ pointer_size * w.children_max)
      → (cells : ℕ → Cell) × (close_gap i w ≡ ok cells)
        × (cell_list cells n ≡ remove_at i (child_list w))
  unfolding close_gap memmove
  close_gap_lem i n w count h fits = elim (Bool-cases (ltb i (w.child_count - 1))) [
    | inl inner ↦ (
      moved i (i + 1) (bytes_to_move w.child_count i) w.children,
      (let inside = fits (ground arith) in ground (arith, inside)),
      rw count (removed w.children i n h),
    )
    | inr last ↦ (w.children, ground arith, rw count (removed_last w.children i n (ground arith)))
  ]

  -- Otherwise, unless the last child is removed, the move leaves the array.
  pub close_gap_fault :
      (i : ℕ) (w : Workflow J)
      → i + 1 < w.child_count
      → pointer_size * w.children_max < pointer_size * w.child_count + 3 * (i + 1)
      → close_gap i w ≡ fault
  unfolding close_gap memmove
  close_gap_fault i w h over = ground arith
