-- ===== src/Handler/Routing/Reports.antt =====
-- manageRouting: what an answer tells of the file and of xray.
use mmw_agent.Base.{
  ◌≡◌, refl, ap, ◌∙◌, ◌⊎◌, inl, inr, Bool, true, false, not, Option, none, some, arith, Text,
  text_eq, nat_eq, Bool-cases, if-elim,
}
use mmw_agent.Json.{Object}
use mmw_agent.Base.Dict.{is_some}
use mmw_agent.Handler.Config.Rules.Edit.{RoutingRequest, Edit, refused, edited, edit_routing}
use mmw_agent.Handler.Transaction.{World, attempt, fails, bytes_of, read_config, restart_xray}
use mmw_agent.Handler.Transaction.Actions.{ConfigOps}
use mmw_agent.Handler.Transaction.Steps.{
  restart_xray-config, restart_xray-done, restart_xray-failed,
}
use mmw_agent.Handler.Routing.{
  RoutingResponse, failure, deferred, restarted, rejected, overwrite_config, roll_back,
  finish_routing, write_routing, save_edit, route_parsed, route_content, manage_routing,
}

module _ (torn : Option Text → Text → Option Text) (content : Text) where
  -- A rollback that reports success has the old content in the file and in use. After one that does
  -- not, the file has the old content or is torn, and xray is stopped, runs as it did or runs with
  -- the old content, which is then in the file.
  pub record RolledBack (w : World) (r : World × Bool) : Type 0 where
    pub restored : r.1 ≡ true → (r.0.config ≡ some content) × (r.0.running ≡ some content)
    pub file : (r.0.config ≡ some content) ⊎ (r.0.config ≡ torn w.config content)
    pub runs :
        (r.0.running ≡ none)
        ⊎ ((r.0.running ≡ w.running) ⊎ ((r.0.running ≡ some content) × (r.0.config ≡ some content)))

  restarted-RolledBack :
      (w v : World)
      → v.config ≡ some content
      → v.running ≡ w.running
      → RolledBack w ((restart_xray v).0, not (restart_xray v).1)
  restarted-RolledBack w v there same = record {
    restored =
        λ h. (restart_xray-config v ∙ there, restart_xray-done v (ground (arith, h)) ∙ there);
    file = inl (restart_xray-config v ∙ there);
    runs = elim (Bool-cases (restart_xray v).1) [
      | inl failed ↦ elim (restart_xray-failed v failed) [
        | inl stopped ↦ inl stopped
        | inr (inl kept) ↦ inr (inl (kept ∙ same))
        | inr (inr late) ↦ inr (inr (late ∙ there, restart_xray-config v ∙ there))
      ]
      | inr started ↦ inr (inr (restart_xray-done v started ∙ there, restart_xray-config v ∙ there))
    ];
  }

  roll_back-RolledBack : (w : World) → RolledBack w (roll_back torn content w)
  unfolding roll_back overwrite_config attempt
  roll_back-RolledBack w =
      if-elim (RolledBack w) (fails w.outcomes) _ _
        (λ no_write. record {
          restored = λ h. ground (arith, h);
          file = inr (ground (arith, no_write));
          runs = inr (inl refl);
        })
        (λ written.
          restarted-RolledBack w (overwrite_config torn content w).0 (ground (arith, written)) refl)

-- What an answer tells, by the content before and the one that the request asks for.
module _ (torn : Option Text → Text → Option Text) (w0 : World) (no_restart : Bool)
    (old : Text) where
  abbrev pub Reported : Option Text → World × RoutingResponse → Type 0
  Reported new (w, failure code) =
      (w.running ≡ w0.running)
      × ((w.config ≡ w0.config) ⊎ ((code ≡ 500) × ((t : Text) × (w.config ≡ torn w0.config t))))
  Reported new (w, deferred) =
      (no_restart ≡ true) × ((w.running ≡ w0.running) × ((w.config ≡ new) × (is_some new ≡ true)))
  Reported new (w, restarted) =
      (no_restart ≡ false) × ((w.config ≡ new) × ((w.running ≡ new) × (is_some new ≡ true)))
  Reported new (w, rejected true) =
      (no_restart ≡ false) × ((w.config ≡ some old) × (w.running ≡ some old))
  Reported new (w, rejected false) =
      (no_restart ≡ false)
      × ((w.config ≡ some old) ⊎ (w.config ≡ torn new old))
      × ((w.running ≡ none)
          ⊎ ((w.running ≡ w0.running)
              ⊎ ((w.running ≡ new) ⊎ ((w.running ≡ some old) × (w.config ≡ some old)))))

  rejected-Reported :
      (new : Option Text) (w : World) (r : World × Bool)
      → no_restart ≡ false
      → w.config ≡ new
      → (w.running ≡ none) ⊎ ((w.running ≡ w0.running) ⊎ (w.running ≡ new))
      → RolledBack torn old w r
      → Reported new (r.0, rejected r.1)
  rejected-Reported new w (w', true) n c k h = (n, h.restored refl)
  rejected-Reported new w (w', false) n c k h = (
    n,
    elim h.file [ inl e ↦ inl e | inr e ↦ inr (e ∙ ap (λ f. torn f old) c) ],
    ground (arith, k, h.runs),
  )

  finish_routing-Reported :
      (new : Text) (w : World)
      → w.config ≡ some new
      → w.running ≡ w0.running
      → Reported (some new) (finish_routing torn w no_restart old)
  unfolding finish_routing restart_xray attempt
  finish_routing-Reported new w c k =
      if-elim (Reported (some new)) no_restart _ _ (λ n. (n, (k, (c, refl))))
        (λ n.
          if-elim (Reported (some new)) (fails w.outcomes) _ _
            (λ failed.
              rejected-Reported (some new) (restart_xray w).0
                (roll_back torn old (restart_xray w).0) n c
                (elim (restart_xray-failed w failed) [
                  | inl stopped ↦ inl stopped
                  | inr (inl kept) ↦ inr (inl (kept ∙ k))
                  | inr (inr late) ↦ inr (inr (late ∙ c))
                ])
                (roll_back-RolledBack torn old (restart_xray w).0))
            (λ started. (n, (c, (ground (arith, started, c), refl)))))

  write_routing-Reported :
      (new : Option Text) (w : World)
      → w.config ≡ w0.config
      → w.running ≡ w0.running
      → Reported new (write_routing torn w no_restart old new)
  unfolding write_routing overwrite_config attempt
  write_routing-Reported none w c k = (k, inl c)
  write_routing-Reported (some new) w c k =
      if-elim (Reported (some new)) (fails w.outcomes) _ _
        (λ failed. (k, inr (refl, (new, ground (arith, failed, c)))))
        (λ written.
          finish_routing-Reported new (overwrite_config torn new w).0 (ground (arith, written)) k)

module _ (torn : Option Text → Text → Option Text) (ops : ConfigOps Object) where
  -- The content that the request asks for, none if it is refused.
  abbrev pub asked_edit : Edit → Option Text
  asked_edit (refused code) = none
  asked_edit (edited config) = ops.marshal config

  abbrev pub asked : RoutingRequest → Option Object → Option Text
  asked req none = none
  asked req (some config) = asked_edit (edit_routing config req)

  module _ (w0 : World) (req : RoutingRequest) (old : Text) where
    save_edit-Reported :
        (w : World) (e : Edit)
        → w.config ≡ w0.config
        → w.running ≡ w0.running
        → Reported torn w0 req.no_restart old
            (asked_edit e)
            (save_edit torn ops w req.no_restart old e)
    unfolding save_edit
    save_edit-Reported w (refused code) c k = (k, inl c)
    save_edit-Reported w (edited config) c k =
        write_routing-Reported torn w0 req.no_restart old (ops.marshal config) w c k

    route_parsed-Reported :
        (w : World) (config : Option Object)
        → w.config ≡ w0.config
        → w.running ≡ w0.running
        → Reported torn w0 req.no_restart old
            (asked req config)
            (route_parsed torn ops w req old config)
    unfolding route_parsed
    route_parsed-Reported w none c k = (k, inl c)
    route_parsed-Reported w (some config) c k = save_edit-Reported w (edit_routing config req) c k

  -- Whatever calls fail: after an error that is no rejection xray is as before, and so is the file,
  -- unless os.WriteFile failed and tore it; an accepted change is in the file and, unless the restart
  -- is left to the caller, in use; after a rejection with a rollback the old content is in the file
  -- and in use; after one without it the file has the old content or a failed os.WriteFile of it
  -- tore it, and xray is stopped, runs as before, runs with the new content, or runs with the old
  -- content, which is then in the file.
  pub manage_routing-Reported :
      (w : World) (req : RoutingRequest)
      → Reported torn w req.no_restart
          (bytes_of w.config)
          (asked req (ops.unmarshal (bytes_of w.config)))
          (manage_routing torn ops w req)
  unfolding manage_routing route_content read_config attempt
  manage_routing-Reported w req =
      let old = bytes_of w.config in
      let w1 = (attempt w).0 in
      if-elim
        (λ o.
          Reported torn w req.no_restart old (asked req (ops.unmarshal old))
            (route_content torn ops req (w1, o)))
        (fails w.outcomes) _ _ (λ _. (refl, inl refl))
        (λ _. route_parsed-Reported w req old w1 (ops.unmarshal old) refl refl)
