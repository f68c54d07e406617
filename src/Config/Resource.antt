-- ===== src/Config/Resource.antt =====
-- config/resource.go and config/image_pull_policy.go.
use datakit_operator.Common.{
  Option, none, some, Bool, ◌&&◌, ◌||◌, String, ◌==◌, if◌then◌else◌, is_some,
}
use datakit_operator.Config.Selector.{Compilers}

pub record ResourceQuotaConfig : Type 0 where
  pub cpu : String
  pub memory : String

pub record ResourceRequirements : Type 0 where
  pub requests : ResourceQuotaConfig
  pub limits : ResourceQuotaConfig

unfoldable pub default_resource_requirements : ResourceRequirements
default_resource_requirements = record {
  requests = record { cpu = "100m"; memory = "64Mi" };
  limits = record { cpu = "500m"; memory = "512Mi" };
}

unfoldable pub nil : ResourceRequirements → Bool
nil r =
    r.requests.cpu == "" && r.requests.memory == "" && r.limits.cpu == "" && r.limits.memory == ""

-- The four checks of `Verify`, in their order: the first quantity that is given and does not parse.
pub data Fault : Type 0 where
  cpu_request memory_request cpu_limit memory_limit : Fault

unfoldable pub acceptable : Compilers → String → Bool
acceptable c q = q == "" || is_some (c.parse_quantity q)

unfoldable pub verify : Compilers → ResourceRequirements → Option Fault
unfolding acceptable
verify c r =
    if acceptable c r.requests.cpu
    then (if acceptable c r.requests.memory
        then (if acceptable c r.limits.cpu
            then (if acceptable c r.limits.memory then none else some memory_limit)
            else some cpu_limit)
        else some memory_request)
    else some cpu_request

-- The head of `setupInjectRules`: what a rule has after it.
unfoldable pub usable : Compilers → ResourceRequirements → ResourceRequirements
unfolding nil verify default_resource_requirements
usable c r =
    if nil r
    then default_resource_requirements
    else if is_some (verify c r)
    then default_resource_requirements
    else r

unfoldable pub pull_policy : String → String
pull_policy p = if p == "Always" || p == "IfNotPresent" || p == "Never" then p else "Always"
