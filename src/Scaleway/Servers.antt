-- ===== src/Scaleway/Servers.antt =====
-- provider/defangscaleway/build.go: build servers, their volumes and addresses.
pub mod Keeps
pub mod Addresses
use pulumi_defang.Prelude.{
  Text, codes, contains_text, text_eq, is_empty, Map, List, [], ◌∷◌, ◌++◌, map, Bool, true, false,
  any, Option, none, some, Result, ok, err, ℤ, pos, negsuc, ℕ, zero, suc, ◌+◌, ◌-◌, ◌*◌, ◌%◌, ltb,
  leb, ◌==◌, ◌&&◌, ◌||◌, not, if◌then◌else◌,
}
use pulumi_defang.Common.Maps.{sorted}
use pulumi_defang.Scaleway.Api.{
  NewServer, Body, no_body, action, script, new_server, Volume, ServerObject, Response, History,
  World, Error, wrapped, wrapped_both, joined, undecodable, out_of_fuel, api, message, as_api,
  is_not_found, Outcome, Call, ◌>>=◌, return, fail, do_request, sleep, instance_base_url,
  block_base_url,
}
use pulumi_defang.Scaleway.BuildInstance.{BuildInstanceType}

abbrev pub two_to_64 : ℕ
two_to_64 = 18446744073709551616

-- The 64 bits of a number as a signed number.
signed : ℕ → ℤ
signed n = if ltb n 9223372036854775808 then pos n else negsuc (two_to_64 - 1 - n)

-- diskSizeGB * 1_000_000_000 of machine integers.
unfoldable pub bytes_of_gb : ℤ → ℤ
unfolding signed
bytes_of_gb (pos n) = signed (n * 1000000000 % two_to_64)
bytes_of_gb (negsuc n) = signed ((two_to_64 - (n + 1) * 1000000000 % two_to_64) % two_to_64)

abbrev no_quota : Text
no_quota =
    codes
      ": this Scaleway project has no Compute Instance quota yet — verify the account's payment method and identity in the Scaleway console, then contact Scaleway Support if quota is still 0 afterward"

explain_quota : Error → Error
unfolding message
explain_quota e =
    if contains_text (codes "quotas_exceeded") (message e) then wrapped [] e no_quota else e

-- The server object of a response that was decoded.
unfoldable pub decode_server : Response → Call ServerObject
decode_server r = elim r.server [
  | none ↦ fail (undecodable (codes "decoding server response"))
  | some s ↦ return s
]

server_id : Outcome Response → Outcome Text
unfolding explain_quota decode_server
server_id (err e, h) = (err (explain_quota e), h)
server_id (ok r, h) = (decode_server r >>= λ s. return s.id) h

-- The id of the volumes, of one kind, that have an id.
unfoldable pub volumes_of_type : Text → Map Volume → List Text
volumes_of_type kind [] = []
volumes_of_type kind ((k, v) ∷ m) =
    let rest = volumes_of_type kind m in
    if not (is_empty v.id) && text_eq v.volume_type kind then v.id ∷ rest else rest

-- Each id once, in the order of their first occurrence.
unfoldable pub add_ids : List Text → List Text → List Text
add_ids seen [] = seen
add_ids seen (i ∷ ids) =
    let kept = add_ids (seen ++ i ∷ []) ids in
    let dropped = add_ids seen ids in
    if not (is_empty i) && not (any (text_eq i) seen) then kept else dropped

pub record ServerResources : Type 0 where
  pub volume_ids : List Text
  pub local_volume_ids : List Text
  pub ip_ids : List Text

abbrev pub no_resources : ServerResources
no_resources = record { volume_ids = []; local_volume_ids = []; ip_ids = [] }

-- publicIPs, with publicIP behind them.
abbrev pub all_ips : ServerObject → List Text
all_ips s = elim s.public_ip [ none ↦ s.public_ips | some i ↦ s.public_ips ++ i ∷ [] ]

unfoldable pub resources_of : ServerObject → ServerResources
unfolding volumes_of_type add_ids
resources_of s = record {
  volume_ids = volumes_of_type (codes "sbs_volume") (sorted s.volumes);
  local_volume_ids = volumes_of_type (codes "l_ssd") (sorted s.volumes);
  ip_ids = add_ids [] (all_ips s);
}

-- A volume that is still attached, or an error that passes.
unfoldable pub is_retryable_volume_delete : Error → Bool
unfolding as_api
is_retryable_volume_delete e = elim (as_api e) [
  | none ↦ false
  | some (status, body) ↦
      if (status == 409) || (status == 412) || (status == 429) || leb 500 status
      then true
      else (status == 400) && contains_text (codes "in_use") body
]

unfoldable pub found_or_absent : Outcome Response → Outcome Unit
found_or_absent (ok r, h) = (ok tt, h)
found_or_absent (err e, h) = (if is_not_found e then ok tt else err e, h)

abbrev pub server_url : (zone id : Text) → Text
server_url zone id = instance_base_url zone ++ codes "/servers/" ++ id

module _ (w : World) where
  unfoldable pub create_server : Text → Text → Text → BuildInstanceType → ℤ → Call Text
  unfolding server_id bytes_of_gb
  create_server zone project name type disk_size_gb h =
      let volume_type =
        if ltb 0 type.max_local_disk_gb then codes "l_ssd" else codes "sbs_volume" in
      let body : NewServer = record {
        name = name;
        commercial_type = type.name;
        image = codes "docker";
        project = project;
        dynamic_ip_required = true;
        volume_type = volume_type;
        size = bytes_of_gb disk_size_gb;
      } in
      server_id (
        do_request w (codes "POST") (instance_base_url zone ++ codes "/servers") (new_server body)
          h)

  unfoldable pub set_cloud_init : Text → Text → Text → Call Unit
  set_cloud_init zone id text = do
    r ←
        do_request w (codes "PATCH") (server_url zone id ++ codes "/user_data/cloud-init")
          (script text)
    return tt

  unfoldable pub server_action : Text → Text → Text → Call Unit
  server_action zone id what = do
    r ← do_request w (codes "POST") (server_url zone id ++ codes "/action") (action what)
    return tt

  unfoldable pub power_on_server : Text → Text → Call Unit
  unfolding server_action
  power_on_server zone id = server_action zone id (codes "poweron")

  delete_fallback : Text → Text → Error → Outcome Response → Outcome Unit
  delete_fallback zone id e (ok r, h) = (ok tt, h)
  delete_fallback zone id e (err e', h) = (
    err (
        wrapped_both (codes "terminate action failed (") e
          (codes "), delete fallback also failed: ") e'),
    h,
  )

  terminated : Text → Text → Outcome Unit → Outcome Unit
  unfolding delete_fallback
  terminated zone id (ok u, h) = (ok tt, h)
  terminated zone id (err e, h) =
      delete_fallback zone id e (do_request w (codes "DELETE") (server_url zone id) no_body h)

  unfoldable pub terminate_server : Text → Text → Call Unit
  unfolding server_action terminated
  terminate_server zone id h = terminated zone id (server_action zone id (codes "terminate") h)

  unfoldable pub get_server_resources : Text → Text → Call ServerResources
  unfolding resources_of decode_server
  get_server_resources zone id = do
    r ← do_request w (codes "GET") (server_url zone id) no_body
    s ← decode_server r
    return (resources_of s)

  unfoldable pub delete_if_exists : Text → Call Unit
  unfolding found_or_absent
  delete_if_exists url h = found_or_absent (do_request w (codes "DELETE") url no_body h)
