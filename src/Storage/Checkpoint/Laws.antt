-- ===== src/Storage/Checkpoint/Laws.antt =====
-- createCheckpoint and verifyCheckpoint of packages/fold-storage/src/checkpoint.ts.
use super_brain.Prelude.{
  ◌≡◌, refl, sym, ap, ◌∙◌, ◌⊎◌, true, Option, none, some, List, length, last?, ==_iff, get_or, ok,
  ok-injective, Result-cases, Bool-cases, inl, inr, arith,
}
use mathlib.Core.Path.{subst}
use super_brain.Prelude.Text.{text, ===_iff, ===_self}
use super_brain.Prelude.Order.{Ordered}
use super_brain.Fold.Json.{Numbers}
use super_brain.Fold.Schema.Validity.{Dates}
use super_brain.Fold.Order.{EventCursor, FoldLogEntry}
use super_brain.Fold.State.{ComponentRegistry, FoldState, FoldError, Outcome, done, threw}
use super_brain.Fold.Engine.{fold}
use super_brain.Storage.Records.{FoldCheckpoint, is_valid_checkpoint}
use super_brain.Storage.Digest.{Digests, digest_materialized_state}
use super_brain.Storage.Checkpoint.{
  CreateCheckpointOptions, CheckpointVerification, fold_options, cursor_of, same_cursor,
  checkpoint_of, create_checkpoint, agrees, verify_checkpoint, materialize_fold_state,
}

same_cursor_self :
    {T : Type 0} ⦃clock : Ordered T⦄ (c : Option (EventCursor T)) → same_cursor c c ≡ true
unfolding same_cursor
same_cursor_self none = refl
same_cursor_self ⦃clock⦄ (some c) = rw (clock.cmp_self c.t, ===_self c.event_id) refl

eq_of_same_cursor :
    {T : Type 0} ⦃clock : Ordered T⦄ (a b : Option (EventCursor T)) → same_cursor a b ≡ true → a ≡ b
unfolding same_cursor
eq_of_same_cursor none none h = refl
eq_of_same_cursor none (some b) h = absurd (ground arith)
eq_of_same_cursor (some a) none h = absurd (ground arith)
eq_of_same_cursor ⦃clock⦄ (some a) (some b) h =
    let t : a.t ≡ b.t = clock.eq_of_cmp a.t b.t (ground arith) in
    let e : a.event_id ≡ b.event_id = (===_iff a.event_id b.event_id).0 (ground arith) in
    rw (t, e) refl

Outcome-cases :
    {N T : Type 0} (o : Outcome N T)
    → ((s : FoldState N T) × (o ≡ done s))
      ⊎ ((e : FoldError T) × ((s : FoldState N T) × (o ≡ threw e s)))
Outcome-cases (done s) = inl (s, refl)
Outcome-cases (threw e s) = inr (e, (s, refl))

-- The options that verifyCheckpoint reads off a checkpoint.
abbrev refreshed : {N : Type 0} → CreateCheckpointOptions N → CreateCheckpointOptions N
refreshed options = record options {
  component_set = some (get_or options.component_set (text "core-v0.7"));
}

module _ {N T : Type 0} ⦃number : Numbers N⦄ ⦃dates : Dates N⦄ ⦃clock : Ordered T⦄
    ⦃digests : Digests N⦄ where
  -- A checkpoint that was created is the one of the state that the fold gives.
  create_checkpoint-done :
      (entries : List (FoldLogEntry N T)) (options : CreateCheckpointOptions N)
      (checkpoint : FoldCheckpoint N T)
      → create_checkpoint entries options ≡ ok checkpoint
      → (state : FoldState N T) × (fold entries (fold_options options.include options.components)
          ≡ done state)
        × (checkpoint_of options state ≡ checkpoint)
        × (is_valid_checkpoint (checkpoint_of options state) ≡ true)
  unfolding create_checkpoint
  create_checkpoint-done entries options checkpoint h =
      elim (Outcome-cases (fold entries (fold_options options.include options.components))) [
        | inr (e, (s, q)) ↦ absurd (ground arith)
        | inl (s, q) ↦ elim (Bool-cases (is_valid_checkpoint (checkpoint_of options s))) [
          | inl v ↦ (s, q, ok-injective (rw (q, v, create_checkpoint) at h), v)
          | inr v ↦ absurd (ground arith)
        ]
      ]

  create_checkpoint-of :
      (entries : List (FoldLogEntry N T)) (options : CreateCheckpointOptions N) (s : FoldState N T)
      → fold entries (fold_options options.include options.components) ≡ done s
      → is_valid_checkpoint (checkpoint_of options s) ≡ true
      → create_checkpoint entries options ≡ ok (checkpoint_of options s)
  unfolding create_checkpoint
  create_checkpoint-of entries options s q v = rw (q, v, create_checkpoint) refl

  agrees_self :
      (options : CreateCheckpointOptions N) (state : FoldState N T)
      → agrees (checkpoint_of options state) (checkpoint_of options state) ≡ true
  unfolding agrees checkpoint_of
  agrees_self options state = ground (
    arith,
    ==_iff (length state.applied_events) (length state.applied_events),
    ===_self (digest_materialized_state (materialize_fold_state state)),
    same_cursor_self (cursor_of (last? state.applied_events)),
  )

  -- A checkpoint that was created is found valid over the same entries and components.
  pub verify_checkpoint-create_checkpoint :
      (entries : List (FoldLogEntry N T)) (options : CreateCheckpointOptions N)
      (checkpoint : FoldCheckpoint N T)
      → create_checkpoint entries options ≡ ok checkpoint
      → verify_checkpoint checkpoint entries options.components
        ≡ ok (record { valid = true; expected = checkpoint })
  unfolding verify_checkpoint checkpoint_of
  verify_checkpoint-create_checkpoint entries options checkpoint h =
      let (s, q, e, v) = create_checkpoint-done entries options checkpoint h in
      subst
        (λ c.
          verify_checkpoint c entries options.components
          ≡ ok (record { valid = true; expected = c }))
        e (again s q v)
    where
      again :
          (s : FoldState N T)
          → fold entries (fold_options options.include options.components) ≡ done s
          → is_valid_checkpoint (checkpoint_of options s) ≡ true
          → verify_checkpoint (checkpoint_of options s) entries options.components
            ≡ ok (record { valid = true; expected = checkpoint_of options s })
      again s q v =
          rw
            (
              create_checkpoint-of entries (refreshed options) s q v,
              agrees_self options s,
              verify_checkpoint,
            )
            refl

  -- A checkpoint that is found valid describes the fold of the entries before it: their fold
  -- succeeds, and the checkpoint has the number of events that it applied, the time and id of the
  -- last of them, and the digest of its state, which is the digest of the checkpoint's own state.
  pub verify_checkpoint-valid :
      (checkpoint : FoldCheckpoint N T) (entries : List (FoldLogEntry N T))
      (components : Option (ComponentRegistry N)) (verification : CheckpointVerification N T)
      → verify_checkpoint checkpoint entries components ≡ ok verification
      → verification.valid ≡ true
      → (state : FoldState N T) × (fold entries (fold_options checkpoint.include components)
          ≡ done state)
        × (checkpoint.event_count ≡ length state.applied_events)
        × (checkpoint.through ≡ cursor_of (last? state.applied_events))
        × (checkpoint.state_digest ≡ digest_materialized_state (materialize_fold_state state))
        × (digest_materialized_state checkpoint.state ≡ checkpoint.state_digest)
  unfolding verify_checkpoint agrees checkpoint_of
  verify_checkpoint-valid checkpoint entries components verification h valid =
      elim (Result-cases (create_checkpoint entries options)) [
        | inr (e, q) ↦ absurd (ground (arith, rw (q, verify_checkpoint) at h))
        | inl (expected, q) ↦
            let same : ◌≡◌ {A = CheckpointVerification N T}
                (record { valid = agrees checkpoint expected; expected = expected }) verification =
              ok-injective (rw (q, verify_checkpoint) at h) in
            let a : agrees checkpoint expected ≡ true =
              ap (λ (x : CheckpointVerification N T). x.valid) same ∙ valid in
            let (s, f, e, _) = create_checkpoint-done entries options expected q in
            let (x, y, z, w) = parts s (subst (λ c. agrees checkpoint c ≡ true) (sym e) a) in
            (s, f, x, y, z, w)
      ]
    where
      options : CreateCheckpointOptions N
      options = record {
        include = checkpoint.include;
        components = components;
        component_set = some checkpoint.component_set;
      }

      parts :
          (s : FoldState N T)
          → agrees checkpoint (checkpoint_of options s) ≡ true
          → (checkpoint.event_count ≡ length s.applied_events)
            × (checkpoint.through ≡ cursor_of (last? s.applied_events))
            × (checkpoint.state_digest ≡ digest_materialized_state (materialize_fold_state s))
            × (digest_materialized_state checkpoint.state ≡ checkpoint.state_digest)
      parts s a =
          let digest = digest_materialized_state (materialize_fold_state s) in
          let own = digest_materialized_state checkpoint.state in
          (
            (==_iff checkpoint.event_count (length s.applied_events)).0 (ground arith),
            eq_of_same_cursor checkpoint.through (cursor_of (last? s.applied_events))
                (ground arith),
            (===_iff checkpoint.state_digest digest).0 (ground arith),
            (===_iff own checkpoint.state_digest).0 (ground arith),
          )
