-- ===== src/Scaleway/Servers/Keeps.antt =====
-- The calls on a server keep what was done before them.
use pulumi_defang.Prelude.{Text, codes, ok, err, Option-cases, inl, inr}
use pulumi_defang.Scaleway.Api.{Response, History, World, Error, Outcome, no_body}
use pulumi_defang.Scaleway.Api.Keeps.{IsStable, Keeps, do_request-Keeps, continue-Keeps}
use pulumi_defang.Scaleway.Servers.{
  decode_server, found_or_absent, delete_fallback, terminated, server_action, terminate_server,
  get_server_resources, delete_if_exists,
}

module _ (w : World) (P : History → Type 0) (stable : IsStable w P) where
  pub server_action-Keeps : (zone id what : Text) → Keeps P (server_action w zone id what)
  unfolding server_action
  server_action-Keeps zone id what h has =
      continue-Keeps P _ _ (λ r h has. has) (do_request-Keeps w P stable _ _ _ h has)

  delete_fallback-Keeps :
      (zone id : Text) (x : Error) (o : Outcome Response)
      → P o.1
      → P (delete_fallback w zone id x o).1
  unfolding delete_fallback
  delete_fallback-Keeps zone id x (ok r, h) has = has
  delete_fallback-Keeps zone id x (err x', h) has = has

  terminated-Keeps : (zone id : Text) (o : Outcome Unit) → P o.1 → P (terminated w zone id o).1
  unfolding terminated
  terminated-Keeps zone id (ok u, h) has = has
  terminated-Keeps zone id (err x, h) has =
      delete_fallback-Keeps zone id x _ (do_request-Keeps w P stable _ _ no_body h has)

  -- What stands in the history when the terminate action has ended stands there at the end.
  pub terminate_server-after :
      (zone id : Text) (h : History)
      → P (server_action w zone id (codes "terminate") h).1
      → P (terminate_server w zone id h).1
  unfolding terminate_server
  terminate_server-after zone id h has = terminated-Keeps zone id _ has

  pub terminate_server-Keeps : (zone id : Text) → Keeps P (terminate_server w zone id)
  terminate_server-Keeps zone id h has =
      terminate_server-after zone id h (server_action-Keeps zone id _ h has)

  decode_server-Keeps : (r : Response) → Keeps P (decode_server r)
  unfolding decode_server
  decode_server-Keeps r h has = elim (Option-cases r.server) [
    | inl eq ↦ rw eq has
    | inr (s, eq) ↦ rw eq has
  ]

  pub get_server_resources-Keeps : (zone id : Text) → Keeps P (get_server_resources w zone id)
  unfolding get_server_resources
  get_server_resources-Keeps zone id h has =
      continue-Keeps P _ _
        (λ r h has. continue-Keeps P _ _ (λ s h has. has) (decode_server-Keeps r h has))
        (do_request-Keeps w P stable _ _ _ h has)

  found_or_absent-Keeps : (o : Outcome Response) → P o.1 → P (found_or_absent o).1
  unfolding found_or_absent
  found_or_absent-Keeps (ok r, h) has = has
  found_or_absent-Keeps (err x, h) has = has

  pub delete_if_exists-Keeps : (url : Text) → Keeps P (delete_if_exists w url)
  unfolding delete_if_exists
  delete_if_exists-Keeps url h has =
      found_or_absent-Keeps _ (do_request-Keeps w P stable _ _ no_body h has)
