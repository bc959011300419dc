-- ===== src/Scaleway/Removal/Keeps.antt =====
-- The removal of a server keeps what was done before it.
use pulumi_defang.Prelude.{
  Text, List, [], ◌∷◌, Option, none, some, ok, err, ℕ, zero, suc, inl, inr, ◌||◌, ◌+◌, not, ltb,
  Bool-cases,
}
use pulumi_defang.Scaleway.Api.{History, World, Error, Outcome, Call}
use pulumi_defang.Scaleway.Api.Keeps.{IsStable, Keeps, sleep-Keeps, continue-Keeps}
use pulumi_defang.Scaleway.Servers.{ServerResources, is_retryable_volume_delete}
use pulumi_defang.Scaleway.Servers.Keeps.{get_server_resources-Keeps, delete_if_exists-Keeps}
use pulumi_defang.Scaleway.Removal.{
  after_delete, delete_volume, delete_volumes, note_ip, delete_ips, delete_server_resources, report,
  volume_detach_timeout, volume_rounds, volume_detach_poll, found_resources, list_resources,
}

module _ (w : World) (P : History → Type 0) (stable : IsStable w P) where
  found_resources-Keeps : (o : Outcome ServerResources) → P o.1 → P (found_resources w o).1
  unfolding found_resources
  found_resources-Keeps (ok res, h) has = has
  found_resources-Keeps (err x, h) has = has

  pub list_resources-Keeps : (zone id : Text) → Keeps P (list_resources w zone id)
  unfolding list_resources
  list_resources-Keeps zone id h has =
      found_resources-Keeps _ (get_server_resources-Keeps w P stable zone id h has)

  after_delete-Keeps :
      (deadline : ℕ) (url : Text) (again : Call (Option Error))
      → Keeps P again
      → (o : Outcome Unit) → P o.1
      → P (after_delete w deadline url again o).1
  unfolding after_delete
  after_delete-Keeps deadline url again keeps (ok u, h) has = has
  after_delete-Keeps deadline url again keeps (err x, h) has =
      elim (Bool-cases (not (is_retryable_volume_delete x) || ltb deadline (w.now h))) [
        | inl b ↦ rw b has
        | inr b ↦
            rw b
              (continue-Keeps P _ _ (λ u. keeps) (sleep-Keeps w P stable volume_detach_poll h has))
      ]

  pub delete_volume-Keeps :
      (deadline rounds : ℕ) (url : Text) → Keeps P (delete_volume w deadline rounds url)
  unfolding delete_volume
  delete_volume-Keeps deadline zero url h has = has
  delete_volume-Keeps deadline (suc rounds) url h has =
      after_delete-Keeps deadline url _ (delete_volume-Keeps deadline rounds url) _
        (delete_if_exists-Keeps w P stable url h has)

  pub delete_volumes-Keeps : (urls : List Text) → Keeps P (delete_volumes w urls)
  unfolding delete_volumes
  delete_volumes-Keeps [] h has = has
  delete_volumes-Keeps (url ∷ urls) h has =
      continue-Keeps P _ _
        (λ x h has. continue-Keeps P _ _ (λ xs h has. has) (delete_volumes-Keeps urls h has))
        (delete_volume-Keeps (w.now h + volume_detach_timeout) volume_rounds url h has)

  note_ip-Keeps : (id : Text) (o : Outcome Unit) → P o.1 → P (note_ip w id o).1
  unfolding note_ip
  note_ip-Keeps id (ok u, h) has = has
  note_ip-Keeps id (err x, h) has = has

  pub delete_ips-Keeps : (zone : Text) (ids : List Text) → Keeps P (delete_ips w zone ids)
  unfolding delete_ips
  delete_ips-Keeps zone [] h has = has
  delete_ips-Keeps zone (id ∷ ids) h has =
      continue-Keeps P _ _
        (λ x h has. continue-Keeps P _ _ (λ xs h has. has) (delete_ips-Keeps zone ids h has))
        (note_ip-Keeps id _ (delete_if_exists-Keeps w P stable _ h has))

  report-Keeps : (x : Option Error) → Keeps P (report x)
  unfolding report
  report-Keeps none h has = has
  report-Keeps (some x) h has = has

  pub delete_server_resources-Keeps :
      (zone : Text) (res : ServerResources) → Keeps P (delete_server_resources w zone res)
  unfolding delete_server_resources
  delete_server_resources-Keeps zone res h has =
      continue-Keeps P _ _
        (λ es h has.
          continue-Keeps P _ _ (λ more. report-Keeps _) (delete_ips-Keeps zone res.ip_ids h has))
        (delete_volumes-Keeps _ h has)
