-- ===== src/Reconcile/Edits.antt =====
-- What the decision (src/mirror/reconcile.rs) may do about an edit on one side.
use canvas_fuse.Prelude.{sym, subst, ◌∙◌, text_eq, ◌≡◌, ◌≢◌, refl, Option, none, some, Text}
use canvas_fuse.Reconcile.Table.{
  Row, decide-Row, same, edit, local_delete, remote_edit, remote_delete, agree, both_edit,
  edit_beats_delete, push_as_new,
}
use canvas_fuse.Reconcile.{Action, push, pull, adopt, conflict, decide}

-- What may be done about a file that was edited here.
pub data KeepsLocal (l : Text) (b : Option Text) : Option Text → Action → Type 0 where
  uploaded : {r : Option Text} → r ≡ b → KeepsLocal l b r (push b)
  uploaded_as_new : KeepsLocal l b none (push none)
  agreed : {r : Option Text} → r ≡ some l → KeepsLocal l b r adopt
  preserved : (r : Text) → r ≢ l → KeepsLocal l b (some r) (conflict r)

-- What may be done about a file that was edited on the hub.
pub data KeepsRemote (r : Text) (b : Option Text) : Option Text → Action → Type 0 where
  fetched : {l : Option Text} → l ≡ b → KeepsRemote r b l (pull r)
  fetched_back : KeepsRemote r b none (pull r)
  agreed_already : {l : Option Text} → l ≡ some r → KeepsRemote r b l adopt
  set_aside : (l : Text) → l ≢ r → KeepsRemote r b (some l) (conflict r)

KeepsLocal-Row :
    {b r l' : Option Text} {a : Action} (l : Text)
    → l' ≡ some l
    → some l ≢ b
    → Row l' b r a
    → KeepsLocal l b r a
KeepsLocal-Row l e h (same p q) = absurd (h (sym e ∙ p))
KeepsLocal-Row l e h (edit l' p q) = uploaded q
KeepsLocal-Row l e h (local_delete b q) = cc
KeepsLocal-Row l e h (remote_edit r p q) = absurd (h (sym e ∙ p))
KeepsLocal-Row l e h (remote_delete l' p) = absurd (h (sym e ∙ p))
KeepsLocal-Row l e h (agree p q) = agreed (sym q ∙ e)
KeepsLocal-Row l e h (both_edit l' r p q d) = preserved r (λ x. d (cc))
KeepsLocal-Row l e h (edit_beats_delete b r p) = cc
KeepsLocal-Row l e h (push_as_new l' b p) = uploaded_as_new

-- If the local bytes differ from the base, the decision is to push them under the base as
-- precondition while the hub still has the base, to push them as new where the hub has nothing, to
-- adopt them where the hub has the same, or to keep both versions: never to pull or to trash.
pub decide-KeepsLocal :
    (l : Text) (b r : Option Text) → some l ≢ b → KeepsLocal l b r (decide (some l) b r)
decide-KeepsLocal l b r h = KeepsLocal-Row l refl h (decide-Row (some l) b r)

KeepsRemote-Row :
    {l b r' : Option Text} {a : Action} (r : Text)
    → r' ≡ some r
    → some r ≢ b
    → Row l b r' a
    → KeepsRemote r b l a
KeepsRemote-Row r e h (same p q) = absurd (h (sym e ∙ q))
KeepsRemote-Row r e h (edit l p q) = absurd (h (sym e ∙ q))
KeepsRemote-Row r e h (local_delete b q) = absurd (h (sym e ∙ q))
KeepsRemote-Row {l} {b} r e h (remote_edit r' p q) =
    let x : r' ≡ r = cc in subst (λ a. KeepsRemote r b l (pull a)) (sym x) (fetched p)
KeepsRemote-Row r e h (remote_delete l p) = cc
KeepsRemote-Row r e h (agree p q) = agreed_already (q ∙ e)
KeepsRemote-Row {b = b} r e h (both_edit l r' p q d) =
    let x : r' ≡ r = cc in
    subst (λ a. KeepsRemote r b (some l) (conflict a)) (sym x) (set_aside l (λ y. d (y ∙ sym x)))
KeepsRemote-Row r e h (edit_beats_delete b r' p) =
    let x : r' ≡ r = cc in subst (λ a. KeepsRemote r (some b) none (pull a)) (sym x) fetched_back
KeepsRemote-Row r e h (push_as_new l b p) = cc

-- If the hub's bytes differ from the base, the decision is to pull them where nothing was changed
-- here or the file was only deleted here, to adopt them where the local bytes are the same, or to
-- keep both versions: never to push over them or to delete them.
pub decide-KeepsRemote :
    (r : Text) (l b : Option Text) → some r ≢ b → KeepsRemote r b l (decide l b (some r))
decide-KeepsRemote r l b h = KeepsRemote-Row r refl h (decide-Row l b (some r))
