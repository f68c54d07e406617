-- ===== src/Injector/Grown.antt =====
-- What an injection may do to a pod: put containers, init containers and volumes behind those that are there,
-- set variables, add mounts, annotate the pod, and have it share its processes.
pub mod Steps
use datakit_operator.Common.{
  List, [], ◌∷◌, ◌++◌, map, String, ◌≡◌, refl, ap, ◌∙◌, ◌⊎◌, inl, inr, Option, none, some, Bool,
  true, false, ◌==◌, sym, any, lookup, differ,
}
use mathlib.Core.Bool.{false≢true}
use datakit_operator.Kubernetes.{EnvVar, VolumeMount, Volume, Container, Pod}
use datakit_operator.Manager.Envs.{find_env}
use datakit_operator.Manager.Named.{Extends, Extends-refl, Extends-trans}

-- A container but for its variables and its mounts.
abbrev pub core : Container → Container
core c = record c { env = []; volume_mounts = [] }

-- The variables that the tracing libraries are loaded by, and the tags.
abbrev pub tracing_variables : List String
tracing_variables =
    "JAVA_TOOL_OPTIONS" ∷ "PYTHONPATH" ∷ "DD_LOADER_PACKAGE_PATH" ∷ "PHP_INI_SCAN_DIR"
    ∷ "NODE_OPTIONS" ∷ "DD_TAGS" ∷ []

abbrev pub is_tracing_variable : String → Bool
is_tracing_variable k = any (λ n. n == k) tracing_variables

-- The first variable of each other name stays as it is.
abbrev pub KeepsEnv : List EnvVar → List EnvVar → Type 0
KeepsEnv es new =
    (k : String) (e : EnvVar)
    → is_tracing_variable k ≡ false
    → find_env k es ≡ some e
    → find_env k new ≡ some e

-- A container keeps its mounts, its other variables, and what is neither a variable nor a mount.
abbrev pub Kept : Container → Container → Type 0
Kept c new =
    (core new ≡ core c)
    × Extends VolumeMount.name c.volume_mounts new.volume_mounts
    × KeepsEnv c.env new.env

-- The containers bear some of the names, in their order.
pub InOrder : List String → List Container → Type 0
InOrder [] [] = Unit
InOrder [] (c ∷ cs) = ⊥
InOrder (k ∷ ks) [] = Unit
InOrder (k ∷ ks) (c ∷ cs) = ((c.name ≡ k) × InOrder ks cs) ⊎ InOrder ks (c ∷ cs)

-- Each container is kept, and behind them stand containers that bear some of the names.
pub Joined : List String → List Container → List Container → Type 0
unfolding InOrder
Joined ks [] new = InOrder ks new
Joined ks (c ∷ cs) [] = ⊥
Joined ks (c ∷ cs) (d ∷ new) = Kept c d × Joined ks cs new

-- A pod but for what an injection may add or set.
abbrev pub rest : Pod → Pod
rest pod = record pod {
  annotations = [];
  spec = record (pod.spec) {
    containers = [];
    init_containers = [];
    volumes = [];
    share_process_namespace = none;
    restart_policy = "";
  };
}

-- Each annotation stays as it is.
abbrev pub KeepsAnnotations : Pod → Pod → Type 0
KeepsAnnotations pod new =
    (k v : String) → lookup k pod.annotations ≡ some v → lookup k new.annotations ≡ some v

-- The pod has grown by containers of some of the names.
pub record Grows (names : List String) (pod new : Pod) : Type 0 where
  pub containers : Joined names pod.spec.containers new.spec.containers
  pub inits : Extends Container.name pod.spec.init_containers new.spec.init_containers
  pub volumes : Extends Volume.name pod.spec.volumes new.spec.volumes
  pub annotations : KeepsAnnotations pod new
  pub others : rest new ≡ rest pod

-- A panic is no pod.
abbrev pub GrowsResult : List String → Pod → Option Pod → Type 0
GrowsResult names pod none = Unit
GrowsResult names pod (some new) = Grows names pod new

-- A name that is not among the variables differs from one that is.
pub other_variable :
    (key k : String)
    → is_tracing_variable key ≡ true
    → is_tracing_variable k ≡ false
    → (key == k) ≡ false
other_variable key k h other = differ is_tracing_variable key k h other

-- A container whose variables change.
pub env-Kept :
    (c : Container) (es : List EnvVar) → KeepsEnv c.env es → Kept c (record c { env = es })
env-Kept c es h = (refl, Extends-refl VolumeMount.name c.volume_mounts, h)

pub Kept-refl : (c : Container) → Kept c c
Kept-refl c = (refl, Extends-refl VolumeMount.name c.volume_mounts, λ k e other h. h)

pub Kept-trans : (a b c : Container) → Kept a b → Kept b c → Kept a c
Kept-trans a b c (h, m, v) (k, n, w) =
    (k ∙ h, Extends-trans VolumeMount.name m n, λ name e other i. w name e other (v name e other i))

pub InOrder-nil : (ks : List String) → InOrder ks []
unfolding InOrder
InOrder-nil [] = tt
InOrder-nil (k ∷ ks) = tt

pub Joined-nil : Joined [] [] []
unfolding InOrder Joined
Joined-nil = tt

pub Joined-cons :
    (c d : Container) (cs ds : List Container)
    → Kept c d
    → Joined [] cs ds
    → Joined [] (c ∷ cs) (d ∷ ds)
unfolding Joined
Joined-cons c d cs ds kept h = (kept, h)

InOrder-skip : (ks js : List String) (cs : List Container) → InOrder js cs → InOrder (ks ++ js) cs
unfolding InOrder
InOrder-skip [] js cs h = h
InOrder-skip (k ∷ ks) js [] h = tt
InOrder-skip (k ∷ ks) js (c ∷ cs) h = inr (InOrder-skip ks js (c ∷ cs) h)

InOrder-Joined :
    (ks js : List String) (bs cs : List Container)
    → InOrder ks bs
    → Joined js bs cs
    → InOrder (ks ++ js) cs
unfolding InOrder Joined
InOrder-Joined [] js [] cs h g = g
InOrder-Joined [] js (b ∷ bs) cs h g = absurd h
InOrder-Joined (k ∷ ks) js [] cs h g = InOrder-skip (k ∷ ks) js cs g
InOrder-Joined (k ∷ ks) js (b ∷ bs) [] h g = absurd g
InOrder-Joined (k ∷ ks) js (b ∷ bs) (c ∷ cs) (inl (named, h)) ((same, mounts, envs), g) =
    inl (ap Container.name same ∙ named, InOrder-Joined ks js bs cs h g)
InOrder-Joined (k ∷ ks) js (b ∷ bs) (c ∷ cs) (inr h) g =
    inr (InOrder-Joined ks js (b ∷ bs) (c ∷ cs) h g)

pub Joined-trans :
    (ks js : List String) (xs bs cs : List Container)
    → Joined ks xs bs
    → Joined js bs cs
    → Joined (ks ++ js) xs cs
unfolding Joined
Joined-trans ks js [] bs cs h g = InOrder-Joined ks js bs cs h g
Joined-trans ks js (a ∷ xs) [] cs h g = absurd h
Joined-trans ks js (a ∷ xs) (b ∷ bs) [] h g = absurd g
Joined-trans ks js (a ∷ xs) (b ∷ bs) (c ∷ cs) (kept, h) (kept_again, g) =
    (Kept-trans a b c kept kept_again, Joined-trans ks js xs bs cs h g)

pub Joined-refl : (ks : List String) (cs : List Container) → Joined ks cs cs
unfolding Joined
Joined-refl ks [] = InOrder-nil ks
Joined-refl ks (c ∷ cs) = (Kept-refl c, Joined-refl ks cs)

-- Growth composes.
pub Grows-trans :
    {ks js : List String} {a b c : Pod} → Grows ks a b → Grows js b c → Grows (ks ++ js) a c
Grows-trans {ks} {js} {a} {b} {c} g h = record {
  containers =
      Joined-trans ks js a.spec.containers b.spec.containers c.spec.containers g.containers
        h.containers;
  inits = Extends-trans Container.name g.inits h.inits;
  volumes = Extends-trans Volume.name g.volumes h.volumes;
  annotations = λ k v found. h.annotations k v (g.annotations k v found);
  others = h.others ∙ g.others;
}

pub Grows-refl : (ks : List String) (pod : Pod) → Grows ks pod pod
Grows-refl ks pod = record {
  containers = Joined-refl ks pod.spec.containers;
  inits = Extends-refl Container.name pod.spec.init_containers;
  volumes = Extends-refl Volume.name pod.spec.volumes;
  annotations = λ k v found. found;
  others = refl;
}
