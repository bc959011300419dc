-- ===== src/Samples/Cd.antt =====
-- The log and the frozen environment on small inputs.
use mathlib.Core.List.{flatten}
use pulumi_defang.Prelude.{
  Text, codes, lookup, List, [], ◌∷◌, ◌++◌, false, none, if◌then◌else◌, ◌≡◌,
}
use pulumi_defang.Cd.Log.{ignore_substrs, newline}
use pulumi_defang.Cd.Log.Stream.{progress, write_all, terminated, kept, progress_stream_lines}
use pulumi_defang.Compose.Types.{ServiceConfig}
use pulumi_defang.Cd.Args.{to_aws_service_args}
use pulumi_defang.Cd.Args.Gcp.{to_gcp_service_args}
use pulumi_defang.Cd.Args.Azure.{to_azure_service_args}
use pulumi_defang.Cd.Args.Received.{received, left, received-to_service_args}
use pulumi_defang.Samples.{service_of, game_ports}
use pulumi_defang.Cd.Ttl.{self_destruct_env}
use pulumi_defang.Cd.Ttl.Environment.{is_frozen, last_value, lookup-self_destruct_env}

-- Three lines in two writes, cut in the middle of the second.
abbrev chunks : List Text
chunks =
    (codes "one" ++ newline ∷ codes "tw")
    ∷ (codes "o" ++ newline ∷ (codes "three" ++ newline ∷ codes "rest"))
    ∷ []

progress_stream_lines_example :
    write_all (progress ignore_substrs) chunks (record { buf = []; sink = [] }) ≡ (
      record {
        buf = (terminated (flatten chunks)).1;
        sink = kept ignore_substrs (terminated (flatten chunks)).0;
      },
      false,
    )
progress_stream_lines_example = progress_stream_lines ignore_substrs chunks

abbrev environ : List Text
environ =
    codes "AWS_REGION=a"
    ∷ codes "AWS_SECRET_ACCESS_KEY=s"
    ∷ codes "AWS_REGION=b"
    ∷ codes "HOME=/"
    ∷ []

lookup-self_destruct_env_example : lookup (codes "AWS_REGION") (self_destruct_env environ) ≡ (
    if is_frozen (codes "AWS_REGION") then last_value (codes "AWS_REGION") environ none else none)
lookup-self_destruct_env_example = lookup-self_destruct_env environ (codes "AWS_REGION")

abbrev game : ServiceConfig
game = service_of game_ports (codes "queue" ∷ []) []

received-to_service_args_example :
    (received (to_aws_service_args game) ≡ left game)
    × (received (to_gcp_service_args game) ≡ left game)
    × (received (to_azure_service_args game) ≡ left game)
received-to_service_args_example = received-to_service_args game
