-- ===== src/Paging/Window.antt =====
-- Windows of consecutive pages below a root, as the loops of mantle/src/walker.rs and mantle/src/pml4.rs map them.
use my_kernel.Prelude.{
  ℕ, suc, ◌-◌, ◌+◌, ◌*◌, ◌%◌, ◌≤◌, ◌<◌, ◌≡◌, refl, sym, ap, ◌∙◌, arith, Bool, false, ◌==◌, ◌&&◌,
  leb, ltb, Bool-cases, inl, inr, Option, none, some, if◌then◌else◌,
}
use my_kernel.Prelude.Panic.{Outcome, panic, ◌>>=◌}
use my_kernel.Prelude.Panic
use my_kernel.Paging.{Paging, IsX86}
use my_kernel.Paging.Frames.{FrameSource, Calls, Calls-refl, Calls-weaken, Calls-trans}
use my_kernel.Paging.Walker.{Mem, in_page}
use my_kernel.Paging.Lookup.{walk, lookup, prefix, span}
use my_kernel.Paging.Tree.{Tags, IsTree}
use my_kernel.Paging.Place.{Placed, Places, placed, no_frame}

-- The address lies on one of the `count` pages of a level from number `first`.
abbrev pub in_window : (l first count w : ℕ) → Bool
in_window l first count w = leb first (prefix l w) && ltb (prefix l w) (first + count)

-- What an address is translated to when those pages are mapped to the frames from `phys`, and `old` is what it was
-- translated to before.
unfoldable pub windowed : (l first phys count w : ℕ) → Option ℕ → Option ℕ
windowed l first phys count w old =
    if in_window l first count w
    then some (phys + (prefix l w - first) * span (suc l) + w % span (suc l))
    else old

pub windowed-zero : (l first phys w : ℕ) (old : Option ℕ) → windowed l first phys 0 w old ≡ old
unfolding windowed
windowed-zero l first phys w old = ground arith

first_page : (q first s : ℕ) → q ≤ first → (q - first) * s ≡ 0
first_page q first s h =
    let e : q - first ≡ 0 = omega arith in omega (arith, ap (λ (n : ℕ). n * s) e)

next_page : (q first s : ℕ) → first < q → (q - first) * s ≡ s + (q - (first + 1)) * s
next_page q first s h =
    let e : q - first ≡ q - (first + 1) + 1 = omega arith in omega (arith, ap (λ (n : ℕ). n * s) e)

pub windowed-suc :
    (l first phys count w : ℕ) (old : Option ℕ)
    → windowed l
        (first + 1)
        (phys + span (suc l))
        count
        w
        (if prefix l w == first then some (phys + w % span (suc l)) else old)
      ≡ windowed l first phys (suc count) w old
unfolding windowed
windowed-suc l first phys count w old = elim (Bool-cases (leb (prefix l w) first)) [
  | inl low ↦
      let none_before = first_page (prefix l w) first (span (suc l)) (ground (arith, low)) in
      grind arith
  | inr high ↦
      let next = next_page (prefix l w) first (span (suc l)) (ground (arith, high)) in grind arith
]

module _ (p : Paging) (x : IsX86 p) {hhdm : ℕ} (source : FrameSource hhdm) (top : ℕ) where
  -- The pages of the window are mapped to the frames from `phys`, and every other walk is as before.
  pub record Window (l first phys count : ℕ) (m m' : Mem p source) : Type 1 where
    pub tags : Tags
    pub tree : IsTree p source top tags m'
    pub called : Calls source (3 * count) m.frames m'.frames
    pub others :
        {A : Type 0} (at_page : (level e : ℕ) → A) (gone : A) (w : ℕ)
        → walk p source at_page gone m' 4 top w ≡ (
            if in_window l first count w
            then walk p source at_page gone m' 4 top w
            else walk p source at_page gone m 4 top w)
    pub lookups :
        (w : ℕ)
        → lookup p source m' 4 top w ≡ windowed l first phys count w (lookup p source m 4 top w)

  pub data Windows (l first phys count : ℕ) (m : Mem p source)
      : Outcome (Mem p source) → Type 1 where
    done :
        (m' : Mem p source)
        → Window l first phys count m m'
        → Windows l first phys count m (Panic.ok m')
    cut_short :
        (s s' : source.State)
        → Calls source (3 * count) m.frames s
        → source.alloc s ≡ (none, s')
        → Windows l first phys count m panic

  pub no_pages :
      (l first phys : ℕ) (m : Mem p source) (g : Tags)
      → IsTree p source top g m
      → Window l first phys 0 m m
  no_pages l first phys m g tree = record {
    tags = g;
    tree = tree;
    called = Calls-refl source (3 * 0) m.frames;
    others =
        λ at_page gone w. let empty : in_window l first 0 w ≡ false = ground arith in rw empty refl;
    lookups = λ w. sym (windowed-zero l first phys w (lookup p source m 4 top w));
  }

  after-Calls :
      (count : ℕ) (m m₁ : Mem p source) (s : source.State)
      → Calls source 3 m.frames m₁.frames
      → Calls source (3 * count) m₁.frames s
      → Calls source (3 * suc count) m.frames s
  after-Calls count m m₁ s =
      Calls-trans source 3 (3 * count) (3 * suc count) m.frames m₁.frames s (omega arith)

  -- One page and then a window after it.
  module _ (l first phys e v : ℕ) (is_first : prefix l v ≡ first)
      (in_frame : (w : ℕ) → in_page p source e (span (suc l)) w ≡ phys + w % span (suc l))
      (m : Mem p source) where
    after_page :
        (count : ℕ) (m₁ m' : Mem p source)
        → Placed p x source top l e v m m₁
        → Window l (first + 1) (phys + span (suc l)) count m₁ m'
        → Window l first phys (suc count) m m'
    after_page count m₁ m' one rest = record {
      tags = rest.tags;
      tree = rest.tree;
      called = after-Calls count m m₁ m'.frames one.called rest.called;
      others = λ at_page gone w. elim (Bool-cases (in_window l first (suc count) w)) [
        | inl inside ↦ rw inside refl
        | inr outside ↦
            let later : in_window l (first + 1) count w ≡ false = ground (arith, outside) in
            let apart : (prefix l w == prefix l v) ≡ false = ground (arith, outside, is_first) in
            rest.others at_page gone w ∙ rw (later, one.walks at_page gone w, apart, outside) refl
      ];
      lookups = λ w.
          rest.lookups w
          ∙ rw
              (one.walks (λ k n. some (in_page p source n (span k) w)) none w, in_frame w, is_first)
              (windowed-suc l first phys count w (lookup p source m 4 top w));
    }

    longer :
        (count : ℕ) (m₁ : Mem p source)
        → Placed p x source top l e v m m₁
        → (r : Outcome (Mem p source)) → Windows l (first + 1) (phys + span (suc l)) count m₁ r
        → Windows l first phys (suc count) m r
    longer count m₁ one _ (done m' rest) = done m' (after_page count m₁ m' one rest)
    longer count m₁ one _ (cut_short s s' calls given) =
        cut_short s s' (after-Calls count m m₁ s one.called calls) given

    pub then_window :
        (count : ℕ) (rest : Mem p source → Outcome (Mem p source)) (r : Outcome (Mem p source))
        → Places p x source top l e v m r
        → ((m₁ : Mem p source)
            → Placed p x source top l e v m m₁
            → Windows l (first + 1) (phys + span (suc l)) count m₁ (rest m₁))
        → Windows l first phys (suc count) m (r >>= rest)
    then_window count rest _ (placed m₁ one) go = longer count m₁ one (rest m₁) (go m₁ one)
    then_window count rest _ (no_frame s s' calls given) go =
        cut_short s s' (Calls-weaken source 3 (3 * suc count) m.frames s (omega arith) calls) given
