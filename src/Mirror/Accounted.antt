-- ===== src/Mirror/Accounted.antt =====
-- The account of the work that the hub is owed (src/mirror/sync.rs): an entry that differs from what the
-- hub has been told is out of sync on purpose (ignored, or marked as skipped), or its job is in the
-- queue, or it waits for the upload of a conflict.
use canvas_fuse.Prelude.{
  ◌≡◌, ◌∙◌, sym, ◌||◌, true, false, none, some, Text, text_beq, text_beq_iff, arith, Bool-cases,
  inl, inr, subst,
}
use canvas_fuse.Prelude.Table.{lookup}
use canvas_fuse.Store.{Entry, dirty, tombstone, push, delete, dedupe_id}
use canvas_fuse.Store.Queue.Order.{IsQueue}
use canvas_fuse.Store.Queue.Pending.{pending}
use canvas_fuse.Mirror.{Mirror, is_ignored}
use canvas_fuse.Mirror.Recover.{awaits_upload}
use canvas_fuse.Mirror.Frame.{Frame, own_push, own_delete}

module _ {D : Type 0} (m : Mirror D) where
  pub record IsAccountedAt (key : Text) : Type 0 where
    pub pushed :
        (e : Entry)
        → lookup key m.store.entries ≡ some e
        → e.state ≡ dirty
        → is_ignored m key ≡ false
        → lookup key m.skipped ≡ none
        → (pending (dedupe_id (push key)) m.store || awaits_upload m key) ≡ true
    pub deleted :
        (e : Entry)
        → lookup key m.store.entries ≡ some e
        → e.state ≡ tombstone
        → is_ignored m key ≡ false
        → lookup key m.skipped ≡ none
        → pending (dedupe_id (delete key none)) m.store ≡ true

  pub record IsAccounted : Type 0 where
    pub queue : IsQueue m.store
    pub at : (key : Text) → IsAccountedAt key

module _ {D : Type 0} (key : Text) (m₀ m : Mirror D) (f : Frame key m₀ m) where
  elsewhere : (j : Text) → text_beq key j ≡ false → IsAccountedAt m₀ j → IsAccountedAt m j
  unfolding awaits_upload is_ignored
  elsewhere j h a = record {
    pushed = λ e there state kept listed. ground (
      arith,
      a.pushed e (sym (f.entries j h) ∙ there) state (rw f.rules at kept)
          (sym (f.skips j h) ∙ listed),
      f.conflicts,
      λ (p : pending (dedupe_id (push j)) m₀.store ≡ true). f.jobs j (push j) own_push h p,
    );
    deleted = λ e there state kept listed. f.jobs j (delete j none) own_delete h (
        a.deleted e (sym (f.entries j h) ∙ there) state (rw f.rules at kept)
          (sym (f.skips j h) ∙ listed));
  }

  -- An operation on one key keeps the account, if it settles that of the key.
  pub Frame-IsAccounted : IsAccounted m₀ → IsAccountedAt m key → IsAccounted m
  Frame-IsAccounted a own = record {
    queue = f.queue;
    at = λ j. elim (Bool-cases (text_beq key j)) [
      | inl same ↦ subst (IsAccountedAt m) ((text_beq_iff key j).0 same) own
      | inr other ↦ elsewhere j other (a.at j)
    ];
  }
