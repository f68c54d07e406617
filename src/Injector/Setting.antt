-- ===== src/Injector/Setting.antt =====
-- What the injectors of apis/webhook/injector have in common, and the comparison of pods in pkg/podcompare.
use mathlib.Core.Bool.{decide}
use datakit_operator.Common.{Bool, not, String, ◌==◌, if◌then◌else◌}
use datakit_operator.Kubernetes.{Pod, Pod-discrete, SecurityContext}
use datakit_operator.Config.Selector.{Compilers}

-- What an injector knows: the compilers of the configuration, and two functions of the Kubernetes
-- libraries, `IsConfigMapKey` and `DeepDerivative` of a desired security context and an existing one.
pub record Setting : Type 0 where
  pub compilers : Compilers
  pub is_config_map_key : String → Bool
  pub deep_derivative : SecurityContext → SecurityContext → Bool

-- Kubernetes up to 1.19 does not write the namespace into the pod.
abbrev pub namespace_of : String → Pod → String
namespace_of namespace pod = if pod.namespace == "" then namespace else pod.namespace

-- `podcompare.Changed`
unfoldable pub changed : Pod → Pod → Bool
changed before after = not (decide (Pod-discrete before after))
