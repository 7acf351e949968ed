-- ===== src/Click/TimerFd/Ownership.antt =====
-- Every open timer descriptor has one owner.
use lattice_flow.Base.{ℕ, ◌≡◌, arith, none, some, nat_beq, Bool-cases, inl, inr}
use lattice_flow.Std.Update.{update}
use lattice_flow.Click.TimerFd.{Itimerspec, TimerFileDescriptor, World, setting}

abbrev pub Owns : ℕ → ℕ → World → TimerFileDescriptor → Type 0
Owns a fd w t = (w.objects a ≡ some t) × (t.timerfd ≡ some fd)

-- Each open descriptor belongs to an object; what an object says of its descriptor is what the kernel
-- has, and no two objects have the same descriptor.
pub record IsOwned (w : World) : Type 0 where
  pub owned :
      (fd : ℕ) (s : Itimerspec)
      → w.kernel fd ≡ some s
      → (a : ℕ) × (t : TimerFileDescriptor) × Owns a fd w t
  pub set : (a fd : ℕ) (t : TimerFileDescriptor) → Owns a fd w t → w.kernel fd ≡ some (setting t)
  pub alone : (a b fd : ℕ) (t u : TimerFileDescriptor) → Owns a fd w t → Owns b fd w u → a ≡ b

pub construct-IsOwned :
    (a fd : ℕ) (t : TimerFileDescriptor) (w : World)
    → w.objects a ≡ none
    → w.kernel fd ≡ none
    → t.timerfd ≡ some fd
    → IsOwned w
    → IsOwned (record {
      objects = update a (some t) w.objects;
      kernel = update fd (some (setting t)) w.kernel;
    })
construct-IsOwned a fd t w empty fresh e h = record {
  owned = λ fd' s k. elim (Bool-cases (nat_beq fd fd')) [
    | inl same ↦ (a, t, (ground arith, ground arith))
    | inr other ↦
        let (b, u, at) = h.owned fd' s (ground arith) in (b, u, (ground arith, ground arith))
  ];
  set = λ b fd' u o. elim (Bool-cases (nat_beq a b)) [
    | inl same ↦ ground arith
    | inr other ↦ ground (arith, h.set b fd' u (ground arith, o.1))
  ];
  alone = λ b c fd' u v o p. ground (arith, h.alone b c fd' u v, h.set b fd' u, h.set c fd' v);
}

pub drop-IsOwned :
    (a : ℕ) (t : TimerFileDescriptor) (w : World)
    → w.objects a ≡ some t
    → t.timerfd ≡ none
    → IsOwned w
    → IsOwned (record w { objects = update a none w.objects })
drop-IsOwned a t w e f h = record {
  owned = λ fd s k. let (b, u, at) = h.owned fd s k in (b, u, (ground arith, ground arith));
  set = λ b fd u o. ground (arith, h.set b fd u);
  alone = λ b c fd u v o p. ground (arith, h.alone b c fd u v);
}

pub close-IsOwned :
    (a fd : ℕ) (t : TimerFileDescriptor) (w : World)
    → Owns a fd w t
    → IsOwned w
    → IsOwned (record { objects = update a none w.objects; kernel = update fd none w.kernel })
close-IsOwned a fd t w e h = record {
  owned = λ fd' s k.
      let (b, u, at) = h.owned fd' s (ground arith) in (b, u, (ground arith, ground arith));
  set = λ b fd' u o. ground (arith, h.set b fd' u, h.alone a b fd t u);
  alone = λ b c fd' u v o p. ground (arith, h.alone b c fd' u v);
}

pub move-IsOwned :
    (a from : ℕ) (t : TimerFileDescriptor) (w : World)
    → w.objects a ≡ none
    → w.objects from ≡ some t
    → IsOwned w
    → IsOwned (record w {
      objects = update from (some (record t { timerfd = none })) (update a (some t) w.objects);
    })
move-IsOwned a from t w e f h = record {
  owned = λ fd s k.
      let (b, u, at) = h.owned fd s k in
      elim (Bool-cases (nat_beq from b)) [
        | inl same ↦ (a, t, (ground arith, ground arith))
        | inr other ↦ (b, u, (ground arith, ground arith))
      ];
  set = λ b fd u o. ground (arith, h.set b fd u, h.set from fd t);
  alone = λ b c fd u v o p.
      ground (arith, h.alone b c fd u v, h.alone from c fd t v, h.alone b from fd u t);
}

pub swap-IsOwned :
    (a b : ℕ) (t u : TimerFileDescriptor) (w : World)
    → w.objects a ≡ some t
    → w.objects b ≡ some u
    → IsOwned w
    → IsOwned (record w { objects = update b (some t) (update a (some u) w.objects) })
swap-IsOwned a b t u w e f h = record {
  owned = λ fd s k.
      let (c, v, at) = h.owned fd s k in
      elim (Bool-cases (nat_beq a c)) [
        | inl same ↦ (b, t, (ground arith, ground arith))
        | inr other ↦ elim (Bool-cases (nat_beq b c)) [
          | inl same ↦ (a, u, (ground arith, ground arith))
          | inr another ↦ (c, v, (ground arith, ground arith))
        ]
      ];
  set = λ c fd v o. ground (arith, h.set c fd v, h.set a fd t, h.set b fd u);
  alone = λ c d fd v x o p. ground (
    arith,
    h.alone c d fd v x,
    h.alone a d fd t x,
    h.alone b d fd u x,
    h.alone c a fd v t,
    h.alone c b fd v u,
    h.alone a b fd t u,
  );
}
