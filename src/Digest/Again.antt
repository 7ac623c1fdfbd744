-- ===== src/Digest/Again.antt =====
-- A second run for the same window.
use jp_adopt_core.Prelude.{
  ℕ, ◌≡◌, refl, ◌∙◌, Bool, true, false, List, [], ◌∷◌, ◌++◌, if◌then◌else◌, ◌==◌, ◌&&◌, ◌||◌,
  ==_iff, arith,
}
use jp_adopt_core.Digest.Rows.{DigestRecipientPlan, DigestRun, Tables}
use jp_adopt_core.Digest.Plans.{build_digest_for_window}
use jp_adopt_core.Digest.Run.{
  is_final, digest_already_sent, failures, final_status, run_plans, run_digest,
}

already_sent-append :
    (w : ℕ) (rs : List DigestRun) (r : DigestRun)
    → digest_already_sent w (rs ++ r ∷ [])
      ≡ (digest_already_sent w rs || (r.window_start == w && is_final r.status))
unfolding digest_already_sent
already_sent-append w [] r = ground arith
already_sent-append w (x ∷ rs) r = ground (arith, already_sent-append w rs r)

final-failures :
    (deliver : DigestRecipientPlan → Bool) (plans : List DigestRecipientPlan)
    → is_final (final_status deliver plans) ≡ (failures deliver plans == 0)
final-failures deliver [] = refl
final-failures deliver (p ∷ ps) = ground arith

module _ (i i' w w' : ℕ) (deliver deliver' : DigestRecipientPlan → Bool) (t : Tables) where
  sent_after :
      digest_already_sent w t.runs ≡ false
      → digest_already_sent w (run_plans i w w' deliver (build_digest_for_window t w w') t).1.runs
        ≡ (failures deliver (build_digest_for_window t w w') == 0)
  sent_after fresh =
      already_sent-append w t.runs _
      ∙ rw (fresh, (==_iff w w).1 refl) (final-failures deliver (build_digest_for_window t w w'))

  same_plans :
      build_digest_for_window (run_plans i w w' deliver (build_digest_for_window t w w') t).1 w w'
      ≡ build_digest_for_window t w w'
  unfolding build_digest_for_window
  same_plans = refl

  second :
      (b : Bool)
      → digest_already_sent w (run_plans i w w' deliver (build_digest_for_window t w w') t).1.runs
        ≡ b
      → (run_digest i' w w' deliver'
          (run_plans i w w' deliver (build_digest_for_window t w w') t).1).0.tried
        ≡ (if b then [] else build_digest_for_window t w w')
  unfolding run_digest build_digest_for_window
  second true e = rw (e, run_digest) refl
  second false e = rw (e, run_digest) same_plans

  -- After the first run for a window, a second one mails nobody if the first had no failure; but if a
  -- single mail of the first failed, it mails all recipients of the first again.
  pub second_run_mails_all_or_none :
      digest_already_sent w t.runs ≡ false
      → let (r, t1) = run_digest i w w' deliver t in
        (run_digest i' w w' deliver' t1).0.tried ≡ (if r.failed_count == 0 then [] else r.tried)
  unfolding run_digest build_digest_for_window
  second_run_mails_all_or_none fresh =
      let p = build_digest_for_window t w w' in
      let t1 = (run_plans i w w' deliver p t).1 in
      let first : run_digest i w w' deliver t ≡ run_plans i w w' deliver p t =
        rw (fresh, run_digest) refl in
      let again : (run_digest i' w w' deliver' t1).0.tried
          ≡ (if failures deliver p == 0 then [] else p) =
        second (failures deliver p == 0) (sent_after fresh) in
      rw first again
