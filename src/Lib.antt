-- ===== src/Lib.antt =====
-- Verification library of pulumi-defang, the Pulumi providers that deploy a compose project to AWS,
-- GCP, Azure and Scaleway. It models the parts of the providers that decide something before, or
-- beside, the calls of the Pulumi SDK, and of the command line program `cd` that runs them.
--
-- How the parts interact. A compose project (provider/compose/types.go) is a map of services. The
-- provider of a cloud first brings the ports and the policies of the services into a normal form
-- (provider/compose), asks the shared rules (provider/common) which networks a service is in, what
-- its host names are and in which order services come, and then creates resources. The AWS provider
-- (provider/defangaws/project.go) also splits sidecars from standalone services, folds the sidecars'
-- dependencies into their parents and finds the service of the bare domain. `cd` runs a provider,
-- sends the engine's output to the log (cd/log.go), writes the stack's config from the environment
-- (cd/config.go) and freezes an environment for a scheduled removal (cd/program/ttl.go).
--
-- Files:
-- - Prelude and its children: Booleans on native numbers, signed integers, lists, results, ASCII
--   texts as lists of character codes with the functions of Go's strings package, and Go maps as
--   association lists. The order of such a list is the order of one iteration over the map, so a theorem
--   for all lists holds for all iteration orders.
-- - Compose/Types: the structs of provider/compose/types.go, with their fields. Compose/Ports:
--   IsIngress, IsHost, GetProtocol, GetAppProtocol, HasIngressPorts, HasHostPorts, UDPIngressAsHost.
--   Compose/Policies: NormalizePolicies and NormalizeLiteralPolicies of provider/compose/policies.go.
--   Compose/Sizes: the accessors of provider/compose/types.go for what a service reserves and builds, and
--   ParseMemoryMiB of provider/compose/helpers.go.
-- - Common/Networks: provider/common/algo.go. Common/Dns: provider/common/dns.go, without
--   IsPrivateZone. Common/Maps: Sorted of provider/common/maps.go. Common/Topo: TopologicalSort of
--   provider/common/topo.go, whose closure over two variables is a function on a state.
-- - Aws/Policies: ParsePolicies, resolvePolicyArn and policyName of provider/defangaws/aws/iam.go.
--   Aws/Fargate: fargateResources and what it calls in provider/defangaws/aws/ecs.go. Aws/Containers: the
--   parts of a container definition in that file, naming.go and lb.go. Aws/Sidecars and Aws/Apex:
--   provider/defangaws/project.go.
--   Aws/Certificates: groupHostnamesByCert of provider/defangaws/aws/cert.go.
--   Aws/CodeBuild: parseS3Host of provider/defangaws/aws/codebuild.go.
--   Aws/Catalogs: the instance types of provider/defangaws/aws/rds.go, elasticache.go and
--   memorydb.go, and how one is chosen.
-- - Gcp/Policies: provider/defanggcp/gcp/iam.go. Azure/Policies: provider/defangazure/azure/policies.go.
--   Clouds: what the clouds' policies have to do with each other.
-- - Cd/Log: cd/log.go. Cd/Ttl: cd/program/ttl.go. Cd/Args: toAWSServiceArgs, toGCPServiceArgs,
--   toAzureServiceArgs and toScalewayServiceArgs of cd/program, with the argument structs of the SDK.
--   Cd/Config: addStackConfigFromEnv of cd/config.go, with getenv of cd/envs.go. Cd/Naming: the recipe and the
--   naming of resources in cd/config.go.
-- - Scaleway/BuildInstance: provider/defangscaleway/scaleway/buildinstance.go.
--   Scaleway/Api, Scaleway/Servers, Scaleway/Removal, Scaleway/Script, Scaleway/Builds and
--   Scaleway/BuildResource: provider/defangscaleway/build.go. A call is a function on the history of
--   what was asked and waited for, newest first, and a World says what is answered after a history; an
--   error stops a do block as an early return does, and a deferred call runs on both ways out. A request is
--   not sent once the context is done.
--   Scaleway/Containers, Scaleway/Secrets and Scaleway/Databases: containers.go, parameters.go,
--   postgres.go and redis.go of provider/defangscaleway/scaleway.
-- - Samples and its children: small inputs.
--
-- Bounds and fuel. The recursion of TopologicalSort takes one more unit of fuel than there are names
-- in the graph, services and dependencies; each call marks a name that was not marked, so this is
-- enough. The loop of fargateResources takes fuel 7, one for each CPU size. The wait for a build
-- (waitForInstanceBuild) takes a round for each three seconds of the longest wait and two more, and
-- the wait for a volume to be detached takes 62 rounds of five seconds against five minutes; a clock
-- that moves on by what is slept passes the deadline in these. The pages of secrets are read for a
-- number of rounds that is an argument. Times are nanoseconds since 1970, and the bytes of a disk
-- wrap at 64 bits, and a size that does not fit an int becomes the least int, as on amd64. Elsewhere
-- an int is an unbounded integer: the numbers compared are far from the limits of the machine. A
-- float64 is a finite value mantissa * 2 ^ exponent; where the source rounds it at once, the rounded
-- number is a parameter, and the prices and sizes of the instance catalogs are whole numbers of a
-- small unit.
--
-- Parameters. The duration parser that the CLI shares, strconv.ParseFloat, the rounded logarithm of
-- the CPU reservation and the integer above 1000 times the CPUs are arguments of the definitions
-- that use them. So are the World of a Scaleway build (API, log store, clock, context, environment
-- and hash), the answers of the Secret Manager, the semver library that orders Redis versions, and
-- the JSON and YAML decoders of cd/config.go. The path of a health check, which a regular expression
-- reads (GetHealthCheckPathAndPort of provider/compose/helpers.go), is an argument too.
--
-- Not modelled. The creation of resources is calls of the Pulumi SDK and of cloud APIs. The YAML
-- decoding of compose files, regular expressions beyond those that name a set of characters, and
-- generated code are left out.
pub mod Aws
pub mod Azure
pub mod Cd
pub mod Clouds
pub mod Common
pub mod Compose
pub mod Gcp
pub mod Prelude
pub mod Samples
pub mod Scaleway
