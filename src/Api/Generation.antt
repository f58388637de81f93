-- ===== src/Api/Generation.antt =====
-- The whole of `generate`, against the generation that only computes.
use mathlib.Core.List.{append_assoc, append-nil}
use in_c_test.Prelude.{
  ℕ, ◌≡◌, refl, sym, ap, ◌∙◌, not, Option, none, some, List, [], ◌∷◌, ◌++◌, Result, ok, err, guard,
  length, Bool-cases, inl, inr,
}
use in_c_test.Prelude.Int.{ℤ}
use in_c_test.Text.{Str, join}
use in_c_test.Json.{Real}
use in_c_test.MemoryPlan.{plan_request}
use in_c_test.Api.{ApiError, negative_temperature}
use in_c_test.Api.World.{
  World, Act, Fault, Written, after, lift, Effect, ids_written, started, drained, waited,
  terminated, ids_removed, effect_if_raised, and_effect, Command,
}
use in_c_test.Api.Backend.{Backend, Run, KimiRuntime, planned}
use in_c_test.Api.Process.{
  Decoding, GenerationResult, fresh_decoding, emit, read_lines, finish_run, follow, start, command,
  generate, is_zero, result_of,
}
use in_c_test.Api.Outcomes.{Post, Sends, Sending, outcome, weaken, give-Silent, after-Sends}
use in_c_test.Api.Reference.{
  ref_text, ref_result, ref_emit, ref_lines, ref_finish, ref_start, ref_planned, ref_generate,
  sent_for,
}
use in_c_test.Api.Streams.{
  Callback, Grown, fault_ok-injective, err_lem, emit-Sends, read_lines-Sends,
}

join-ref_text : (pieces : List Str) → join [] pieces ≡ ref_text pieces
unfolding join ref_text
join-ref_text [] = refl
join-ref_text (p ∷ []) = sym (append-nil p)
join-ref_text (p ∷ q ∷ ps) = ap (λ t. p ++ t) (join-ref_text (q ∷ ps))

result_lem : (d : Decoding) → result_of d ≡ ref_result d
result_lem d =
    ap
      (λ (t : Str). record {
        text = t;
        output_tokens = d.output_tokens;
        stopped_by_eos = d.stopped_by_eos;
      })
      (join-ref_text d.parts)

module _ (f : Str → List Written) (on_delta : Str → Act (Unit {0})) (cb : Callback f on_delta) where
  module _ (b : Backend) where
    -- What is returned is the result of `p`, and what was sent is for its pieces.
    abbrev Generated :
        Decoding → Result ApiError GenerationResult × List Str → Post GenerationResult
    Generated d p r out = (r ≡ outcome p.0) × (sent_for f p.1 ≡ sent_for f d.parts ++ out)

    from_effects :
        {A : Type 0} (P : Post A) (w : World) (es : List Effect) (x : Result Fault A × World)
        → Sends P (record w { effects = es }) x
        → Sends P w x
    from_effects P w es x s = record {
      out = s.out;
      sent = s.sent;
      stays = s.stays;
      holds = s.holds;
    }

    and_effect-Sends :
        {A : Type 0} (P : Post A) (w : World) (e : Effect) (x : Result Fault A × World)
        → Sends P w x
        → Sends P w (and_effect e x)
    and_effect-Sends P w e (r, w') s = record {
      out = s.out;
      sent = s.sent;
      stays = s.stays;
      holds = s.holds;
    }

    effect_if_raised-Sends :
        {A : Type 0} (P : Post A) (w : World) (e : Effect) (x : Result Fault A × World)
        → Sends P w x
        → Sends P w (effect_if_raised e x)
    effect_if_raised-Sends P w e (ok a, w') s = record {
      out = s.out;
      sent = s.sent;
      stays = s.stays;
      holds = s.holds;
    }
    effect_if_raised-Sends P w e (err x, w') s = record {
      out = s.out;
      sent = s.sent;
      stays = s.stays;
      holds = s.holds;
    }

    finish_run-Sends :
        (run : Run) (d : Decoding)
        → Sending (Generated d (ref_finish b run (ok tt, d))) (finish_run b on_delta run d)
    unfolding finish_run
    finish_run-Sends run d w h = elim (Bool-cases (is_zero run.exit_code)) [
      | inl e ↦
          let es = (w.effects ++ drained ∷ []) ++ waited ∷ [] in
          let w1 = record w { effects = es } in
          rw e (
            from_effects _ w es _ (
              after-Sends (Grown f on_delta cb d (ok tt, ref_emit d (b.finish d.fed))) _ w1
                (emit on_delta d (b.finish d.fed) w1) _
                (emit-Sends f on_delta cb d (b.finish d.fed) w1 h)
                (λ a out g w' h'.
                  weaken _ _ w' _
                    (λ r out' k'. (
                      k'.0
                          ∙ ap (λ x. ok (result_of x)) (fault_ok-injective g.0)
                          ∙ ap ok (result_lem (ref_emit d (b.finish d.fed))),
                      g.1
                          ∙ ap (λ l. sent_for f d.parts ++ l)
                              (sym (append-nil out) ∙ ap (λ l. out ++ l) (sym k'.1)),
                    ))
                    (give-Silent (result_of a) w' h'))
                (λ x out g. absurd (let z = g.0 in cc))))
      | inr e ↦ rw e (record {
        out = [];
        sent = sym (append-nil w.written);
        stays = h;
        holds = (refl, sym (append-nil _));
      })
    ]

    follow-Sends :
        (run : Run) (w : World) (p : Result ApiError (Unit {0}) × Decoding)
        (x : Result Fault Decoding × World)
        → Sends (Grown f on_delta cb fresh_decoding p) w x
        → Sends
            (Generated fresh_decoding (ref_finish b run p))
            w
            (after x (finish_run b on_delta run))
    unfolding sent_for
    follow-Sends run w (err e, d) x s =
        after-Sends (Grown f on_delta cb fresh_decoding (err e, d)) _ w x
          (finish_run b on_delta run) s (λ a out g. absurd (let z = g.0 in cc))
          (λ x out g. (err_lem g.0, g.1))
    follow-Sends run w (ok u, d) x s =
        after-Sends (Grown f on_delta cb fresh_decoding (ok u, d)) _ w x (finish_run b on_delta run)
          s
          (λ a out g w' h'.
            let same : a ≡ d = fault_ok-injective g.0 in
            weaken _ _ w' _
              (λ r out' k'. (
                k'.0 ∙ ap (λ y. outcome (ref_finish b run (ok tt, y)).0) same,
                ap (λ y. sent_for f (ref_finish b run (ok tt, y)).1) (sym same)
                    ∙ k'.1
                    ∙ ap (λ y. sent_for f y.parts ++ out') same
                    ∙ ap (λ l. l ++ out') g.1
                    ∙ append_assoc [] out out',
              ))
              (finish_run-Sends run a w' h'))
          (λ x out g. absurd (let z = g.0 in cc))

    start-Sends :
        (cmd : Command) (run : Option Run)
        → Sending (Generated fresh_decoding (ref_start b run)) (start b on_delta cmd run)
    unfolding follow sent_for
    start-Sends cmd none w h = record {
      out = [];
      sent = sym (append-nil w.written);
      stays = h;
      holds = (refl, refl);
    }
    start-Sends cmd (some run) w h =
        let es = w.effects ++ started cmd ∷ [] in
        let w1 = record w { effects = es } in
        from_effects _ w es _ (
          follow-Sends run w1 (ref_lines b run.lines fresh_decoding) _ (
            effect_if_raised-Sends _ w1 terminated
              (read_lines b on_delta run.lines fresh_decoding w1)
              (read_lines-Sends f on_delta cb b run.lines fresh_decoding w1 h)))

    planned-Sends :
        {A : Type 0} (t : Result ApiError A) (m : A → Act GenerationResult)
        (ref : A → Result ApiError GenerationResult × List Str)
        → ((a : A) → Sending (Generated fresh_decoding (ref a)) (m a))
        → Sending (Generated fresh_decoding (ref_planned b t ref)) (λ w. after (lift t w) m)
    unfolding sent_for
    planned-Sends (ok a) m ref k w h = k a w h
    planned-Sends (err e) m ref k w h = record {
      out = [];
      sent = sym (append-nil w.written);
      stays = h;
      holds = (refl, refl);
    }

    generate_grown :
        (r : KimiRuntime) (ids : List ℕ) (max_tokens : ℤ) (temperature : Real) (seed : ℤ)
        → Sending
            (Generated fresh_decoding (ref_generate b r ids max_tokens temperature seed))
            (generate b r ids max_tokens temperature seed on_delta)
    unfolding generate ref_generate
    generate_grown r ids max_tokens temperature seed =
        planned-Sends (guard (not temperature.is_negative) negative_temperature) _ _ (λ u.
          planned-Sends (planned (plan_request r.memory (length ids) max_tokens)) _ _ (λ plan w h.
            let cmd = command b r ids max_tokens temperature seed plan.0 in
            let es = w.effects ++ ids_written ids ∷ [] in
            let w1 = record w { effects = es } in
            from_effects _ w es _ (
              and_effect-Sends _ w1 ids_removed (start b on_delta cmd (b.spawn cmd) w1)
                (start-Sends cmd (b.spawn cmd) w1 h))))

    -- To a client that stays, `generate` returns what the generation computes, or raises what that
    -- raises, and it calls its callback for exactly the pieces of the text.
    pub generate-Sends :
        (r : KimiRuntime) (ids : List ℕ) (max_tokens : ℤ) (temperature : Real) (seed : ℤ)
        → Sending
            (λ x out.
              (x ≡ outcome (ref_generate b r ids max_tokens temperature seed).0)
              × (out ≡ sent_for f (ref_generate b r ids max_tokens temperature seed).1))
            (generate b r ids max_tokens temperature seed on_delta)
    unfolding sent_for
    generate-Sends r ids max_tokens temperature seed w h =
        weaken _ _ w _ (λ x out k. (k.0, sym k.1))
          (generate_grown r ids max_tokens temperature seed w h)
