-- ===== src/Click/Forward.antt =====
-- src/click: pushable.h, map.h, call.h, dup.h and tee.h. Values are copied, not moved.
use lattice_flow.Base.{ℕ, zero, suc, ◌≡◌, refl, List, [], ◌∷◌, ◌++◌, replicate}
use lattice_flow.PushPull.Element.{Pusher}

module _ {ℓ κ μ} {From : Type ℓ} {To : Type κ} {S : Type μ} where
  unfoldable pub map_push : (From → To) → Pusher To S → Pusher From S
  map_push f downstream x s = downstream (f x) s

module _ {ℓ κ} {From : Type ℓ} {S : Type κ} where
  unfoldable pub call_push : (From → S → S) → Pusher From S
  call_push f x s = f x s

  -- The loop over the rounds left.
  unfoldable pub dup_push : ℕ → Pusher From S → Pusher From S
  dup_push zero downstream x s = s
  dup_push (suc n) downstream x s = dup_push n downstream x (downstream x s)

  -- The loop over the downstream elements.
  unfoldable pub tee_push : List (Pusher From S) → Pusher From S
  tee_push [] x s = s
  tee_push (d ∷ downstreams) x s = tee_push downstreams x (d x s)

module _ {ℓ κ} {T : Type ℓ} {S : Type κ} where
  tee_push-replicate :
      (n : ℕ) (d : Pusher T S) (x : T) (s : S) → tee_push (replicate n d) x s ≡ dup_push n d x s
  unfolding tee_push dup_push
  tee_push-replicate zero d x s = refl
  tee_push-replicate (suc n) d x s = tee_push-replicate n d x (d x s)

  tee_push-append :
      (ds es : List (Pusher T S)) (x : T) (s : S)
      → tee_push (ds ++ es) x s ≡ tee_push es x (tee_push ds x s)
  unfolding tee_push
  tee_push-append [] es x s = refl
  tee_push-append (d ∷ ds) es x s = tee_push-append ds es x (d x s)

  -- A tee over copies of one downstream element acts as a dup, and a tee over two lists as the one
  -- after the other; a tee over no element drops the value, and over one element passes it on.
  pub tee_push-dup_push :
      (n : ℕ) (d : Pusher T S) (ds es : List (Pusher T S)) (x : T) (s : S)
      → (tee_push (replicate n d) x s ≡ dup_push n d x s)
        × (tee_push (ds ++ es) x s ≡ tee_push es x (tee_push ds x s))
        × (tee_push [] x s ≡ s)
        × (tee_push (d ∷ []) x s ≡ d x s)
  unfolding tee_push dup_push
  tee_push-dup_push n d ds es x s =
      (tee_push-replicate n d x s, tee_push-append ds es x s, refl, refl)
