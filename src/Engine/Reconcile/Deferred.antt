-- ===== src/Engine/Reconcile/Deferred.antt =====
-- `recheck_deferred` (src/mirror/sync.rs) while the hub does not answer.
use canvas_fuse.Prelude.{
  ◌≡◌, refl, Bool, true, false, not, ◌||◌, ◌&&◌, List, [], ◌∷◌, ◌++◌, Text, All, contains,
  contains-put, text_beq_iff, text_eq, arith, ap, ◌∙◌, put, Bool-cases, inl, inr,
}
use canvas_fuse.Hub.{HubError, err}
use canvas_fuse.Local.{Local}
use canvas_fuse.Mirror.{Mirror, defer, pending_directory_move, is_open_for_write}
use canvas_fuse.Engine.{Client}
use canvas_fuse.Engine.Reconcile.{recheck_each, recheck_deferred}

nothing_held : (o : Bool) → o ≡ (o || false)
nothing_held o = ground arith

module _ {D : Type 0} where
  -- The keys that the hub is not asked about.
  abbrev pub AllHeld : Mirror D → List Text → Type 0
  AllHeld m = All (λ key. (pending_directory_move m key || is_open_for_write m key) ≡ true)

  -- Put off again: no directory move is above the key, and a handle has its file open.
  abbrev pub is_put_off : Mirror D → Text → Bool
  is_put_off m key = not (pending_directory_move m key) && is_open_for_write m key

  put_off :
      (m : Mirror D) (x : Text)
      → (pending_directory_move m x || is_open_for_write m x) ≡ true
      → pending_directory_move m x ≡ false
      → is_open_for_write m x ≡ true
  put_off m x all stays = ground arith

  -- A key before the failure, with a directory move.
  with_move :
      (m : Mirror D) (x k : Text) (held : List Text)
      → pending_directory_move m x ≡ true
      → (contains held k && is_put_off m k) ≡ (contains (x ∷ held) k && is_put_off m k)
  unfolding contains
  with_move m x k held moves =
      ground (arith, text_beq_iff x k, λ (p : x ≡ k). ap (pending_directory_move m) p)

  -- A key before the failure, with an open handle.
  with_handle :
      (m : Mirror D) (x k : Text) (held : List Text)
      → pending_directory_move m x ≡ false
      → is_open_for_write m x ≡ true
      → (contains (put x m.recheck) k || (contains held k && is_put_off m k))
        ≡ (contains m.recheck k || (contains (x ∷ held) k && is_put_off m k))
  unfolding contains
  with_handle m x k held stays opened = ground (
    arith,
    contains-put x k m.recheck,
    text_beq_iff x k,
    λ (p : x ≡ k). ap (pending_directory_move m) p,
    λ (p : x ≡ k). ap (is_open_for_write m) p,
  )

module _ {D : Type 0} (local : Local D) (client : Client D) (key : Text) (rest : List Text)
    (e : HubError) (fails : (m : Mirror D) → client.head_object key m ≡ (err e, m)) where
  recheck_each-Loses :
      (held : List Text) (m : Mirror D)
      → AllHeld m held
      → pending_directory_move m key ≡ false
      → is_open_for_write m key ≡ false
      → ((recheck_each local client (held ++ (key ∷ rest)) m).0 ≡ err e)
        × ((k : Text)
            → contains (recheck_each local client (held ++ (key ∷ rest)) m).1.recheck k
              ≡ (contains m.recheck k || (contains held k && is_put_off m k)))
  unfolding recheck_each pending_directory_move is_open_for_write defer contains
  recheck_each-Loses [] m all still closed =
      rw (still, closed, fails, recheck_each)
        (
          refl,
          λ k. ap (λ x. contains x.1.recheck k) (fails m) ∙ nothing_held (contains m.recheck k),
        )
  recheck_each-Loses (x ∷ held) m all still closed =
      elim (Bool-cases (pending_directory_move m x)) [
        | inl moves ↦
            let (failed, left) = recheck_each-Loses held m all.1 still closed in
            rw (moves, recheck_each)
              (
                failed,
                λ k. left k ∙ ap (λ o. contains m.recheck k || o) (with_move m x k held moves),
              )
        | inr stays ↦
            let (failed, left) = recheck_each-Loses held (defer x m) all.1 still closed in
            rw (stays, recheck_each, put_off m x all.0 stays)
              (failed, λ k. left k ∙ with_handle m x k held stays (put_off m x all.0 stays))
      ]

  -- If the hub does not answer for a key, then the pass over the keys that were put off ends with its
  -- error, and of all keys only those before it that a handle has open are put off again: the key
  -- itself and those after it are no longer on the list. The keys before it are those under a queued
  -- directory move or with an open handle, and the key itself is not; the failed request changes
  -- nothing.
  pub recheck_deferred-Loses :
      (held : List Text) (m : Mirror D)
      → m.recheck ≡ held ++ (key ∷ rest)
      → AllHeld m held
      → pending_directory_move m key ≡ false
      → is_open_for_write m key ≡ false
      → ((recheck_deferred local client m).0 ≡ err e)
        × ((k : Text)
            → contains (recheck_deferred local client m).1.recheck k
              ≡ (contains held k && is_put_off m k))
  unfolding recheck_deferred pending_directory_move is_open_for_write contains
  recheck_deferred-Loses held m listed all still closed =
      rw (listed, recheck_deferred)
        (recheck_each-Loses held (record m { recheck = [] }) all still closed)
