-- ===== src/PushPull/Dup.antt =====
-- src/pushpull/dup.h. A negative `num_dups` is not modelled.
use native.Mathlib.Nat.{zero-mul}
use lattice_flow.Base.{
  ℕ, zero, suc, ◌+◌, ◌*◌, ◌≤◌, ◌<◌, ◌≡◌, refl, List, [], ◌∷◌, Option, arith, nat_beq, if◌then◌else◌,
  replicate, repeat_each, ◌⊎◌, inl, inr,
}
use lattice_flow.PushPull.Element.{
  Pusher, Puller, push_all, pull_all, push_all-append, pull_all-add, pull_all-suc, pull_all-zero,
}

-- The state of `Dup<Pull, T>`, with what its upstream element keeps.
pub record Dup {ℓ κ} (T : Type ℓ) (S : Type κ) : Type (ℓ ⊔ κ) where
  pub num_dups_sent : ℕ
  pub buf : Option T
  pub upstream : S

next_round : (r n : ℕ) → suc r * suc n ≡ suc n + r * suc n
next_round r n = omega arith

module _ {ℓ κ} {T : Type ℓ} {S : Type κ} where
  -- `push`, the loop over the rounds left.
  unfoldable pub push : ℕ → Pusher T S → Pusher T S
  push zero downstream x s = s
  push (suc n) downstream x s = push n downstream x (downstream x s)

  -- The two tests at the start of `pull`.
  unfoldable pub refill : ℕ → Puller T S → Dup T S → Dup T S
  refill num_dups upstream d =
      let sent = if nat_beq d.num_dups_sent num_dups then 0 else d.num_dups_sent in
      let (x, s) = upstream d.upstream in
      if nat_beq sent 0
      then record { num_dups_sent = sent; buf = x; upstream = s }
      else record d { num_dups_sent = sent }

  unfoldable pub pull : ℕ → Puller T S → Puller T (Dup T S)
  pull num_dups upstream d =
      let r = refill num_dups upstream d in
      (r.buf, record r { num_dups_sent = r.num_dups_sent + 1 })

  push-replicate :
      (n : ℕ) (downstream : Pusher T S) (x : T) (s : S)
      → push n downstream x s ≡ push_all downstream (replicate n x) s
  unfolding push push_all
  push-replicate zero downstream x s = refl
  push-replicate (suc n) downstream x s = push-replicate n downstream x (downstream x s)

  -- To push values into a dup is to push each of them downstream `num_dups` times in a row.
  pub push_all-push_dup :
      (n : ℕ) (downstream : Pusher T S) (xs : List T) (s : S)
      → push_all (push n downstream) xs s ≡ push_all downstream (repeat_each n xs) s
  unfolding push_all
  push_all-push_dup n downstream [] s = refl
  push_all-push_dup n downstream (x ∷ xs) s =
      rw
        (
          push-replicate n downstream x s,
          push_all-append downstream (replicate n x) (repeat_each n xs) s,
        )
        (push_all-push_dup n downstream xs (push_all downstream (replicate n x) s))

  -- Pulls in the middle of a round give the buffer.
  pull_all-buffered :
      (n : ℕ) (upstream : Puller T S) (m : ℕ) (d : Dup T S)
      → 0 < d.num_dups_sent
      → d.num_dups_sent + m ≤ n
      → pull_all (pull n upstream) m d
        ≡ (replicate m d.buf, record d { num_dups_sent = d.num_dups_sent + m })
  unfolding pull_all pull refill
  pull_all-buffered n upstream zero d h k = ground arith
  pull_all-buffered n upstream (suc m) d h k =
      ground
        (arith, pull_all-buffered n upstream m (record d { num_dups_sent = d.num_dups_sent + 1 }))

  -- A dup whose next pull goes upstream.
  abbrev pub IsFresh : ℕ → Dup T S → Type 0
  IsFresh n d = (d.num_dups_sent ≡ 0) ⊎ (d.num_dups_sent ≡ n)

  pull_fresh :
      (n : ℕ) (upstream : Puller T S) (d : Dup T S)
      → IsFresh n d
      → pull n upstream d ≡ (
        (upstream d.upstream).0,
        record {
          num_dups_sent = 1;
          buf = (upstream d.upstream).0;
          upstream = (upstream d.upstream).1;
        },
      )
  unfolding pull refill
  pull_fresh n upstream d f = ground arith

  round :
      (n : ℕ) (upstream : Puller T S) (d : Dup T S)
      → IsFresh (suc n) d
      → pull_all (pull (suc n) upstream) (suc n) d ≡ (
        replicate (suc n) (upstream d.upstream).0,
        record {
          num_dups_sent = suc n;
          buf = (upstream d.upstream).0;
          upstream = (upstream d.upstream).1;
        },
      )
  unfolding pull_all
  round n upstream d f = ground (
    arith,
    pull_fresh (suc n) upstream d f,
    pull_all-buffered (suc n) upstream n (record {
      num_dups_sent = 1;
      buf = (upstream d.upstream).0;
      upstream = (upstream d.upstream).1;
    }),
  )

  -- A positive number of dups, pulled for whole rounds from a dup that is between two rounds, gives
  -- each of the values that so many pulls from upstream give, `num_dups` times in a row, and is then
  -- between two rounds.
  pub pull_all-pull_dup :
      (n : ℕ) (upstream : Puller T S) (rounds : ℕ) (d : Dup T S)
      → IsFresh (suc n) d
      → ((pull_all (pull (suc n) upstream) (rounds * suc n) d).0
          ≡ repeat_each (suc n) (pull_all upstream rounds d.upstream).0)
        × ((pull_all (pull (suc n) upstream) (rounds * suc n) d).1.upstream
            ≡ (pull_all upstream rounds d.upstream).1)
        × IsFresh (suc n) (pull_all (pull (suc n) upstream) (rounds * suc n) d).1
  pull_all-pull_dup n upstream zero d f =
      rw
        (
          zero-mul (suc n),
          pull_all-zero (pull (suc n) upstream) d,
          pull_all-zero upstream d.upstream,
        )
        (refl, refl, f)
  pull_all-pull_dup n upstream (suc r) d f = rw (next_round r n) (
      ground (
        arith,
        pull_all-add (pull (suc n) upstream) (suc n) (r * suc n) d,
        round n upstream d f,
        pull_all-suc upstream r d.upstream,
        pull_all-pull_dup n upstream r
            (record {
              num_dups_sent = suc n;
              buf = (upstream d.upstream).0;
              upstream = (upstream d.upstream).1;
            })
            (inr refl),
      ))

  pull_all-stuck :
      (upstream : Puller T S) (m : ℕ) (d : Dup T S)
      → 0 < d.num_dups_sent
      → pull_all (pull 0 upstream) m d
        ≡ (replicate m d.buf, record d { num_dups_sent = d.num_dups_sent + m })
  unfolding pull_all pull refill
  pull_all-stuck upstream zero d h = ground arith
  pull_all-stuck upstream (suc m) d h =
      ground (arith, pull_all-stuck upstream m (record d { num_dups_sent = d.num_dups_sent + 1 }))

  -- With no dups to send, a pull dup gives the first value from upstream at every pull.
  pull_all-pull_zero :
      (upstream : Puller T S) (m : ℕ) (d : Dup T S)
      → d.num_dups_sent ≡ 0
      → pull_all (pull 0 upstream) (suc m) d ≡ (
        replicate (suc m) (upstream d.upstream).0,
        record {
          num_dups_sent = suc m;
          buf = (upstream d.upstream).0;
          upstream = (upstream d.upstream).1;
        },
      )
  pull_all-pull_zero upstream m d h = ground (
    arith,
    pull_all-suc (pull 0 upstream) m d,
    pull_fresh 0 upstream d (inl h),
    pull_all-stuck upstream m (record {
      num_dups_sent = 1;
      buf = (upstream d.upstream).0;
      upstream = (upstream d.upstream).1;
    }),
  )
