-- ===== src/Paging/Frames.antt =====
-- The interface between the page tables and the allocator of frames.
use my_kernel.Prelude.{
  ℕ, zero, suc, ◌+◌, ◌^◌, ◌≤◌, ◌<◌, ◌≡◌, ◌≢◌, ◌⊎◌, inl, inr, refl, ap, arith, Option, some,
}
use my_kernel.Word.{sub64}
use my_kernel.Paging.{IsFrame, page_bytes}

-- `alloc_pages(0)` of an allocator that hands out frames, by their addresses in the window at `hhdm`: a frame it
-- gives was free, and is not free afterwards; no frame becomes free by it; a free frame is one that an entry can
-- hold.
pub record FrameSource (hhdm : ℕ) : Type 1 where
  pub hhdm_word : hhdm < 2 ^ 64
  pub State : Type 0
  pub alloc : State → Option ℕ × State
  pub IsFree : State → ℕ → Type 0
  pub alloc_free : (s s' : State) (v : ℕ) → alloc s ≡ (some v, s') → IsFree s v
  pub alloc_taken : (s s' : State) (v : ℕ) → alloc s ≡ (some v, s') → (u : ℕ) → IsFree s' u → u ≢ v
  pub alloc_kept :
      (s s' : State) (r : Option ℕ) → alloc s ≡ (r, s') → (u : ℕ) → IsFree s' u → IsFree s u
  pub free_word : (s : State) (v : ℕ) → IsFree s v → v < 2 ^ 64
  pub free_frame : (s : State) (v : ℕ) → IsFree s v → IsFrame page_bytes (sub64 v hhdm)

module _ {hhdm : ℕ} (source : FrameSource hhdm) where
  -- From one state to another by at most `n` calls of `alloc`.
  abbrev pub Calls : (n : ℕ) → source.State → source.State → Type 0
  Calls zero s s' = s ≡ s'
  Calls (suc n) s s' = (s ≡ s') ⊎ Calls n ((source.alloc s).1) s'

  pub Calls-refl : (n : ℕ) (s : source.State) → Calls n s s
  Calls-refl zero s = refl
  Calls-refl (suc n) s = inl refl

  pub Calls-once : (s s' : source.State) (r : Option ℕ) → source.alloc s ≡ (r, s') → Calls 1 s s'
  Calls-once s s' r given = inr (ap (λ a. a.1) given)

  pub Calls-weaken : (n k : ℕ) (s s' : source.State) → n ≤ k → Calls n s s' → Calls k s s'
  Calls-weaken zero k s s' le same = rw same (Calls-refl k s')
  Calls-weaken (suc n) zero s s' le c = absurd (omega (arith, le))
  Calls-weaken (suc n) (suc k) s s' le (inl same) = inl same
  Calls-weaken (suc n) (suc k) s s' le (inr c) = inr (Calls-weaken n k _ s' (omega (arith, le)) c)

  pub Calls-trans :
      (j k n : ℕ) (s₁ s₂ s₃ : source.State)
      → j + k ≤ n
      → Calls j s₁ s₂
      → Calls k s₂ s₃
      → Calls n s₁ s₃
  Calls-trans zero k n s₁ s₂ s₃ le same c = rw same (Calls-weaken k n s₂ s₃ (omega (arith, le)) c)
  Calls-trans (suc j) k zero s₁ s₂ s₃ le b c = absurd (omega (arith, le))
  Calls-trans (suc j) k (suc n) s₁ s₂ s₃ le (inl same) c =
      rw same (Calls-weaken k (suc n) s₂ s₃ (omega (arith, le)) c)
  Calls-trans (suc j) k (suc n) s₁ s₂ s₃ le (inr b) c =
      inr (Calls-trans j k n _ s₂ s₃ (omega (arith, le)) b c)
