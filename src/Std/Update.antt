-- ===== src/Std/Update.antt =====
-- A function that is changed at one number.
use lattice_flow.Base.{ℕ, ◌≡◌, refl, false, nat_beq, nat_beq_iff, if◌then◌else◌}

abbrev pub update {ℓ} : {A : Type ℓ} → ℕ → A → (ℕ → A) → ℕ → A
update i a f j = if nat_beq i j then a else f j

pub update_self {ℓ} : {A : Type ℓ} (j : ℕ) (a : A) (f : ℕ → A) → update j a f j ≡ a
update_self j a f = rw ((nat_beq_iff j j).1 refl) refl

pub update_other {ℓ} :
    {A : Type ℓ} (j k : ℕ) (a : A) (f : ℕ → A) → nat_beq j k ≡ false → update j a f k ≡ f k
update_other j k a f h = rw h refl
