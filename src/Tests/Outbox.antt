-- ===== src/Tests/Outbox.antt =====
-- Suppression scopes on concrete blocks.
use jp_adopt_core.Prelude.{String, ◌≡◌, refl, none, some, List, [], ◌∷◌}
use jp_adopt_core.Outbox.{
  other_payload, Session, SuppressionContext, ScopeArgs, completed, clean, nested,
  outbox_suppressed, new_row, summary_payload, Counter,
}
use jp_adopt_core.Outbox.Scope.{Event, emit_all, count, occurrences, scope_writes_one_summary}

abbrev idle : Session
idle = record { contacts = []; outbox = []; audits = []; active = none }

abbrev outer : SuppressionContext
outer = record { label = "outer"; started_at = 1; event_counts = []; metadata = [] }

abbrev busy : Session
busy = record idle { active = some outer }

abbrev import_args : ScopeArgs
import_args = record {
  label = "airtable-import";
  metadata = ("run", "17") ∷ [];
  started_at = 10;
  finished_at = 60;
  row_id = 99;
}

abbrev three_events : List Event
three_events =
    ("jp.adopt.v1.contact.submitted", other_payload "{}", 1)
    ∷ ("jp.adopt.v1.contact.engaged", other_payload "{}", 2)
    ∷ ("jp.adopt.v1.contact.submitted", other_payload "{}", 3)
    ∷ []

scope_writes_one_summary_example :
    (counts : Counter) × (outbox_suppressed import_args (emit_all completed three_events) idle ≡ (
      clean,
      record idle {
        outbox =
            new_row 99 "jp.adopt.v1.bulk_imported"
              (summary_payload "airtable-import" 10 60 3 counts (("run", "17") ∷ []))
            ∷ [];
      },
    ))
    × ((t : String) → count t counts ≡ occurrences t three_events)
scope_writes_one_summary_example = scope_writes_one_summary import_args three_events idle refl

-- A scope inside another one is refused.
nested_refused :
    outbox_suppressed import_args (emit_all completed three_events) busy ≡ (nested, busy)
unfolding outbox_suppressed
nested_refused = refl
