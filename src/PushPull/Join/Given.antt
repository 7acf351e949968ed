-- ===== src/PushPull/Join/Given.antt =====
-- The pull join over two lists, against the pairs that match.
use mathlib.Core.List.{Perm, append_assoc, append-nil}
use lattice_flow.Base.{
  ◌≡◌, refl, sym, ◌∙◌, ap, subst, Bool, true, false, Option, none, some, List, [], ◌∷◌, ◌++◌, Eq, ℕ,
  zero, suc, ◌+◌, if◌then◌else◌, length, length-append, pop_back, pop_back_lem, Option-cases,
  List-cases, inl, inr,
}
use lattice_flow.PushPull.Element.{Puller, pull_all, write_down}
use lattice_flow.PushPull.Join.{
  Join, Inputs, left, right, note_input, push_input, push_left, push_right,
}
use lattice_flow.PushPull.Join.Matches.{
  Computes, matches, empty, push_input-Computes, empty-Computes,
}
use lattice_flow.PushPull.Join.Pull.{PullJoin, give_back, refill, pull}
use lattice_flow.PushPull.Join.After.{after, perm_back, plus_zero, push_input-after}

-- Upstream elements that give what is in a list.
module _ {ℓ} {T : Type ℓ} where
  abbrev pub left_list : Puller T (List T × List T)
  left_list ([], rs) = (none, ([], rs))
  left_list (l ∷ ls, rs) = (some l, (ls, rs))

  abbrev pub right_list : Puller T (List T × List T)
  right_list (ls, []) = (none, (ls, []))
  right_list (ls, r ∷ rs) = (some r, (ls, rs))

  -- The pairs among the answers of `pull`.
  abbrev pub pairs : List (Option T) → List T
  pairs [] = []
  pairs (none ∷ xs) = pairs xs
  pairs (some x ∷ xs) = x ∷ pairs xs

  pairs_split : (x : Option T) (xs : List (Option T)) → pairs (x ∷ []) ++ pairs xs ≡ pairs (x ∷ xs)
  pairs_split none xs = refl
  pairs_split (some x) xs = refl

module _ {ℓ κ} {Key : Type ℓ} {T : Type κ} ⦃e : Eq Key⦄ (key_left key_right : T → Key) where
  -- What a pull join has read of two lists and given, and its buffer.
  pub record Gives (ls rs : List T) (given : List (T × T)) (p : PullJoin Key T (List T × List T))
      : Type (ℓ ⊔ κ) where
    pub taken : Inputs T
    pub lefts_taken : taken.lefts ++ p.upstream.0 ≡ ls
    pub rights_taken : taken.rights ++ p.upstream.1 ≡ rs
    pub computes : Computes key_left key_right taken (after key_left key_right given p.join)
    pub turns : length taken.lefts ≡ length taken.rights + (if p.pull_left then 0 else 1)

  module _ (ls rs : List T) where
    give_back-Gives :
        (given : List (T × T)) (p : PullJoin Key T (List T × List T))
        → Gives ls rs given p
        → Gives ls rs
            (given ++ pairs ((give_back key_left key_right left_list right_list p).0 ∷ []))
            (give_back key_left key_right left_list right_list p).1
    unfolding give_back
    give_back-Gives given p h = elim (Option-cases (pop_back p.join.neighbour)) [
      | inl e ↦ rw (give_back, e, append-nil given) h
      | inr ((back, buf), e) ↦
          rw (give_back, e)
            (record {
              taken = h.taken;
              lefts_taken = h.lefts_taken;
              rights_taken = h.rights_taken;
              computes = record {
                lefts_kept = h.computes.lefts_kept;
                rights_kept = h.computes.rights_kept;
                pushed =
                    perm_back given buf back
                      (matches key_left key_right h.taken.lefts h.taken.rights)
                      (subst
                        (λ l.
                          Perm (given ++ l)
                            (matches key_left key_right h.taken.lefts h.taken.rights))
                        (pop_back_lem p.join.neighbour buf back e) h.computes.pushed);
              };
              turns = h.turns;
            })
    ]

    note_left-Gives :
        (l : T) (ls' rs' : List T) (given : List (T × T)) (j : Join Key T (List (T × T)))
        → Gives ls rs given (record { join = j; pull_left = true; upstream = (l ∷ ls', rs') })
        → Gives ls rs given (record {
          join = push_left key_left key_right write_down l j;
          pull_left = false;
          upstream = (ls', rs');
        })
    unfolding push_input
    note_left-Gives l ls' rs' given j h = record {
      taken = note_input (left l) h.taken;
      lefts_taken = append_assoc h.taken.lefts (l ∷ []) ls' ∙ h.lefts_taken;
      rights_taken = h.rights_taken;
      computes =
          subst (Computes key_left key_right (note_input (left l) h.taken))
            (push_input-after key_left key_right (left l) given j)
            (push_input-Computes key_left key_right (left l) h.taken
              (after key_left key_right given j) h.computes);
      turns =
          length-append h.taken.lefts (l ∷ [])
          ∙ ap (λ n. n + 1) (h.turns ∙ plus_zero (length h.taken.rights));
    }

    note_right-Gives :
        (r : T) (ls' rs' : List T) (given : List (T × T)) (j : Join Key T (List (T × T)))
        → Gives ls rs given (record { join = j; pull_left = false; upstream = (ls', r ∷ rs') })
        → Gives ls rs given (record {
          join = push_right key_left key_right write_down r j;
          pull_left = true;
          upstream = (ls', rs');
        })
    unfolding push_input
    note_right-Gives r ls' rs' given j h = record {
      taken = note_input (right r) h.taken;
      lefts_taken = h.lefts_taken;
      rights_taken = append_assoc h.taken.rights (r ∷ []) rs' ∙ h.rights_taken;
      computes =
          subst (Computes key_left key_right (note_input (right r) h.taken))
            (push_input-after key_left key_right (right r) given j)
            (push_input-Computes key_left key_right (right r) h.taken
              (after key_left key_right given j) h.computes);
      turns =
          h.turns
          ∙ sym (length-append h.taken.rights (r ∷ []))
          ∙ sym (plus_zero (length (h.taken.rights ++ r ∷ [])));
    }

    refill-Gives :
        (given : List (T × T)) (j : Join Key T (List (T × T))) (b : Bool) (ls' rs' : List T)
        → Gives ls rs given (record { join = j; pull_left = b; upstream = (ls', rs') })
        → Gives ls rs
            (given
              ++ pairs (
                  (refill key_left key_right left_list right_list
                    (record { join = j; pull_left = b; upstream = (ls', rs') })).0
                  ∷ []))
            (refill key_left key_right left_list right_list
              (record { join = j; pull_left = b; upstream = (ls', rs') })).1
    unfolding refill
    refill-Gives given j true [] rs' h = rw (append-nil given) h
    refill-Gives given j true (l ∷ ls') rs' h =
        give_back-Gives given
          (record {
            join = push_left key_left key_right write_down l j;
            pull_left = false;
            upstream = (ls', rs');
          })
          (note_left-Gives l ls' rs' given j h)
    refill-Gives given j false ls' [] h = rw (append-nil given) h
    refill-Gives given j false ls' (r ∷ rs') h =
        give_back-Gives given
          (record {
            join = push_right key_left key_right write_down r j;
            pull_left = true;
            upstream = (ls', rs');
          })
          (note_right-Gives r ls' rs' given j h)

    pull-Gives :
        (given : List (T × T)) (p : PullJoin Key T (List T × List T))
        → Gives ls rs given p
        → Gives ls rs
            (given ++ pairs ((pull key_left key_right left_list right_list p).0 ∷ []))
            (pull key_left key_right left_list right_list p).1
    unfolding pull
    pull-Gives given p h = elim (List-cases p.join.neighbour) [
      | inl e ↦ rw (pull, e) (refill-Gives given p.join p.pull_left p.upstream.0 p.upstream.1 h)
      | inr (x, xs, e) ↦ rw (pull, e) (give_back-Gives given p h)
    ]

    pulls-Gives :
        (n : ℕ) (given : List (T × T)) (p : PullJoin Key T (List T × List T))
        → Gives ls rs given p
        → Gives ls rs
            (given ++ pairs (pull_all (pull key_left key_right left_list right_list) n p).0)
            (pull_all (pull key_left key_right left_list right_list) n p).1
    unfolding pull_all
    pulls-Gives zero given p h = rw (append-nil given) h
    pulls-Gives (suc n) given p h =
        let (x, q) = pull key_left key_right left_list right_list p in
        let more = (pull_all (pull key_left key_right left_list right_list) n q).0 in
        let here = pulls-Gives n (given ++ pairs (x ∷ [])) q (pull-Gives given p h) in
        subst (λ l. Gives ls rs l (pull_all (pull key_left key_right left_list right_list) n q).1)
          (append_assoc given (pairs (x ∷ [])) (pairs more)
            ∙ ap (λ l. given ++ l) (pairs_split x more))
          here

    abbrev pub new_join : PullJoin Key T (List T × List T)
    new_join = record { join = empty key_left key_right; pull_left = true; upstream = (ls, rs) }

    -- After any number of pulls of a new join over two lists: it has read a part of each from its front,
    -- in turns, first from the left one; and what it has given, with what is in its buffer, is each pair of
    -- values that it has read whose keys are equal, once.
    pub pull_all-Gives :
        (n : ℕ)
        → Gives ls rs
            (pairs (pull_all (pull key_left key_right left_list right_list) n new_join).0)
            (pull_all (pull key_left key_right left_list right_list) n new_join).1
    pull_all-Gives n = pulls-Gives n [] new_join (record {
      taken = record { lefts = []; rights = [] };
      lefts_taken = refl;
      rights_taken = refl;
      computes = empty-Computes key_left key_right;
      turns = refl;
    })
