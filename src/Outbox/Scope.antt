-- ===== src/Outbox/Scope.antt =====
-- What a suppression scope writes: no row for the events of its block, and one summary row.
use jp_adopt_core.Prelude.{
  ℕ, suc, ◌+◌, String, ◌≡◌, refl, sym, none, some, List, [], ◌∷◌, ◌++◌, if◌then◌else◌, ◌=ₛ◌, arith,
  length, =ₛ_iff,
}
use jp_adopt_core.Outbox.{
  Counter, increment, total, SuppressionContext, record_event, Payload, Session, emit_outbox,
  BlockEnd, completed, raised, clean, block_raised, ScopeArgs, new_context, summary_row, new_row,
  summary_payload, outbox_suppressed,
}

-- An event to emit: its type, its payload and the identifier its row would have.
abbrev pub Event : Type 0
Event = String × Payload × ℕ

-- A block that emits these events and then ends.
abbrev pub emit_all : BlockEnd → List Event → Session → BlockEnd × Session
emit_all end [] s = (end, s)
emit_all end ((t, p, i) ∷ es) s = emit_all end es (emit_outbox t p i s).1

-- How many of the events have this type.
abbrev pub occurrences : String → List Event → ℕ
occurrences t [] = 0
occurrences t ((u, _, _) ∷ es) = (if t =ₛ u then 1 else 0) + occurrences t es

-- `counter[key]`
abbrev pub count : String → Counter → ℕ
count t [] = 0
count t ((k, n) ∷ rest) = if t =ₛ k then n else count t rest

count-increment :
    (t u : String) (c : Counter) → count t (increment u c) ≡ (if t =ₛ u then 1 else 0) + count t c
count-increment t u [] = ground arith
count-increment t u ((k, n) ∷ c) =
    ground (arith, =ₛ_iff t u, =ₛ_iff u k, =ₛ_iff t k, count-increment t u c)

pub total-increment : (u : String) (c : Counter) → total (increment u c) ≡ suc (total c)
total-increment u [] = refl
total-increment u ((k, n) ∷ c) = ground (arith, total-increment u c)

-- The context that a block of events leaves.
abbrev recorded : SuppressionContext → List Event → SuppressionContext
recorded ctx [] = ctx
recorded ctx ((t, _, _) ∷ es) = recorded (record_event ctx t) es

emit_all-suppressed :
    (end : BlockEnd) (es : List Event) (s : Session) (ctx : SuppressionContext)
    → s.active ≡ some ctx
    → emit_all end es s ≡ (end, record s { active = some (recorded ctx es) })
unfolding emit_outbox
emit_all-suppressed end [] s ctx h = λ i. (end, record s { active = h i })
emit_all-suppressed end ((t, p, j) ∷ es) s ctx h = rw h (
    emit_all-suppressed end es (record s { active = some (record_event ctx t) })
      (record_event ctx t) refl)

total-recorded :
    (es : List Event) (ctx : SuppressionContext)
    → total (recorded ctx es).event_counts ≡ total ctx.event_counts + length es
total-recorded [] ctx = omega arith
total-recorded ((t, _, _) ∷ es) ctx =
    omega (arith, total-recorded es (record_event ctx t), total-increment t ctx.event_counts)

count-recorded :
    (u : String) (es : List Event) (ctx : SuppressionContext)
    → count u (recorded ctx es).event_counts ≡ count u ctx.event_counts + occurrences u es
count-recorded u [] ctx = omega arith
count-recorded u ((t, _, _) ∷ es) ctx =
    omega (arith, count-recorded u es (record_event ctx t), count-increment u t ctx.event_counts)

metadata-recorded :
    (es : List Event) (ctx : SuppressionContext) → (recorded ctx es).metadata ≡ ctx.metadata
metadata-recorded [] ctx = refl
metadata-recorded ((t, _, _) ∷ es) ctx = metadata-recorded es (record_event ctx t)

label-recorded : (es : List Event) (ctx : SuppressionContext) → (recorded ctx es).label ≡ ctx.label
label-recorded [] ctx = refl
label-recorded ((t, _, _) ∷ es) ctx = label-recorded es (record_event ctx t)

started_at-recorded :
    (es : List Event) (ctx : SuppressionContext) → (recorded ctx es).started_at ≡ ctx.started_at
started_at-recorded [] ctx = refl
started_at-recorded ((t, _, _) ∷ es) ctx = started_at-recorded es (record_event ctx t)

-- The session that a scope's block begins with.
abbrev opened : ScopeArgs → Session → Session
opened a s = record s { active = some (new_context a) }

-- The row that a scope writes for a block of events.
summary-recorded :
    (a : ScopeArgs) (es : List Event)
    → summary_row a (recorded (new_context a) es)
      ≡ new_row a.row_id "jp.adopt.v1.bulk_imported" (
          summary_payload a.label a.started_at a.finished_at
            (length es)
            (recorded (new_context a) es).event_counts
            a.metadata)
summary-recorded a es =
    let all : total (recorded (new_context a) es).event_counts ≡ length es =
      omega (arith, total-recorded es (new_context a)) in
    rw
      (
        label-recorded es (new_context a),
        started_at-recorded es (new_context a),
        metadata-recorded es (new_context a),
        all,
      )
      refl

-- A scope opened outside any other, whose block emits the given events and completes, ends clean.
-- It adds one row to the outbox, the summary, and none for the events, and the context variable is
-- reset. The row has the scope's label, times and metadata, the number of the events as its total,
-- and for each type the number of events of that type.
pub scope_writes_one_summary :
    (a : ScopeArgs) (es : List Event) (s : Session)
    → s.active ≡ none
    → (counts : Counter) × (outbox_suppressed a (emit_all completed es) s ≡ (
      clean,
      record s {
        active = none;
        outbox =
            s.outbox
            ++ new_row a.row_id "jp.adopt.v1.bulk_imported"
                (summary_payload a.label a.started_at a.finished_at (length es) counts a.metadata)
              ∷ [];
      },
    ))
      × ((t : String) → count t counts ≡ occurrences t es)
unfolding outbox_suppressed
scope_writes_one_summary a es s h = (
  (recorded (new_context a) es).event_counts,
  rw
      (
        h,
        outbox_suppressed,
        emit_all-suppressed completed es (opened a s) (new_context a) refl,
        sym (summary-recorded a es),
      )
      refl,
  (λ t. omega (arith, count-recorded t es (new_context a))),
)

-- A scope opened outside any other, whose block raises after any events, adds no row, and the
-- context variable is reset.
scope_raised_writes_nothing :
    (a : ScopeArgs) (es : List Event) (s : Session)
    → s.active ≡ none
    → outbox_suppressed a (emit_all raised es) s ≡ (block_raised, s)
unfolding outbox_suppressed
scope_raised_writes_nothing a es s h =
    rw (h, outbox_suppressed, emit_all-suppressed raised es (opened a s) (new_context a) refl)
