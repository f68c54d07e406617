-- ===== src/Injector/DdTrace/Agents.antt =====
-- The variable that loads the Java agent, in one container: after an injection it has the agent, and what
-- has the agent is not changed again (injectDDTraceEnvToContainer and injectGlobalEnvs of ddtrace.go).
use datakit_operator.Common.{
  Option, none, some, Bool, true, false, ◌||◌, List, [], ◌∷◌, String, ◌≡◌, refl, sym, ap, ◌∙◌, ◌==◌,
  inl, inr, Bool-cases, any,
}
use mathlib.Core.Path.{subst}
use mathlib.Core.Option.{some_inj, none-ne-some}
use datakit_operator.Common.Text.{◌⁀◌, fields}
use datakit_operator.Common.Text.Pieces.{fields-append, any-append}
use datakit_operator.Kubernetes.{EnvVar, Container, plain_env}
use datakit_operator.Manager.{add_or_update_env}
use datakit_operator.Manager.Envs.{find_env, settled, find_env-add_or_update_env}
use datakit_operator.Injector.DdTrace.Options.{
  java_agent_option, is_java_agent, append_java_agent_if_missing,
}
use datakit_operator.Injector.DdTrace.Variables.{find_env-put_env}
use datakit_operator.Injector.DdTrace.{
  java_tool_options_key, is_value_from, revalue, inject_env, put_env,
}
use datakit_operator.Injector.DdTrace.Process.{or_same}

abbrev has_agent : String → Bool
has_agent value = any is_java_agent (fields value)

agent_there : any is_java_agent (fields java_agent_option) ≡ true
unfolding fields
agent_there = refl

or-true : (b : Bool) → (b || true) ≡ true
or-true true = refl
or-true false = refl

-- The option is one of the fields of a value that it was appended to.
appended-has_agent : (v : String) → has_agent (v ⁀ " " ⁀ java_agent_option) ≡ true
appended-has_agent v =
    ap (any is_java_agent) (fields-append v java_agent_option)
    ∙ any-append is_java_agent (fields v) (fields java_agent_option)
    ∙ rw agent_there (or-true (any is_java_agent (fields v)))

-- After an injection the value has the agent.
pub append_java_agent-has_agent : (v : String) → has_agent (append_java_agent_if_missing v) ≡ true
unfolding append_java_agent_if_missing
append_java_agent-has_agent v = elim (Bool-cases (has_agent v)) [
  | inl there ↦ rw there there
  | inr absent ↦ rw absent (appended-has_agent v)
]

append_java_agent_same : (v : String) → has_agent v ≡ true → append_java_agent_if_missing v ≡ v
unfolding append_java_agent_if_missing
append_java_agent_same v h = rw h refl

-- The first variable of the name has the agent.
abbrev pub HasAgent : List EnvVar → Type 0
HasAgent es =
    (e : EnvVar) × (find_env java_tool_options_key es ≡ some e) × (has_agent e.value ≡ true)

-- An update that changes nothing of the variable that it meets changes nothing.
update-settled :
    (r : EnvVar → EnvVar → EnvVar) (es : List EnvVar) (incoming e : EnvVar)
    → find_env incoming.name es ≡ some e
    → r e incoming ≡ e
    → add_or_update_env es incoming (some r) ≡ es
unfolding find_env add_or_update_env
update-settled r [] incoming e h same = cc
update-settled r (x ∷ es) incoming e h same = elim (Bool-cases (x.name == incoming.name)) [
  | inl here ↦
      let met : x ≡ e = cc (rw here at h) in
      rw here (ap (λ v. v ∷ es) (ap (λ v. r v incoming) met ∙ same ∙ sym met))
  | inr later ↦ rw later (ap (◌∷◌ x) (update-settled r es incoming e (rw later at h) same))
]

abbrev pub incoming_agent : EnvVar
incoming_agent = plain_env java_tool_options_key (append_java_agent_if_missing "")

abbrev o_settled : Option EnvVar → EnvVar
o_settled o = settled (revalue append_java_agent_if_missing) o incoming_agent

settled_agent : (o : Option EnvVar) → (e : EnvVar) × (o_settled o ≡ e) × (has_agent e.value ≡ true)
settled_agent none = (o_settled none, refl, append_java_agent-has_agent "")
settled_agent (some x) = (o_settled (some x), refl, append_java_agent-has_agent x.value)

updated-HasAgent :
    (es : List EnvVar)
    → HasAgent (add_or_update_env es incoming_agent (some (revalue append_java_agent_if_missing)))
updated-HasAgent es =
    let (e, same, there) = settled_agent (find_env java_tool_options_key es) in
    (
      e,
      find_env-add_or_update_env (revalue append_java_agent_if_missing) java_tool_options_key es
            incoming_agent (λ a b h. h)
          ∙ ap some same,
      there,
    )

-- A container that has the agent is left as it is.
pub HasAgent-same :
    (c : Container)
    → HasAgent c.env
    → or_same c (inject_env java_tool_options_key append_java_agent_if_missing c) ≡ c
unfolding inject_env
HasAgent-same c (e, found, there) = elim (Bool-cases (is_value_from java_tool_options_key c.env)) [
  | inl reference ↦ rw reference refl
  | inr plain ↦ rw plain (
      ap (λ es. record c { env = es })
        (update-settled (revalue append_java_agent_if_missing) c.env incoming_agent e found
          (ap (λ v. record e { value = v }) (append_java_agent_same e.value there))))
]

-- What injects the agent into a container, where it does.
pub inject_env-HasAgent :
    (c new : Container)
    → inject_env java_tool_options_key append_java_agent_if_missing c ≡ some new
    → HasAgent new.env
unfolding inject_env
inject_env-HasAgent c new h = elim (Bool-cases (is_value_from java_tool_options_key c.env)) [
  | inl reference ↦ absurd (none-ne-some new (rw reference at h))
  | inr plain ↦
      subst HasAgent (ap Container.env (some_inj.0 (rw plain at h))) (updated-HasAgent c.env)
]

-- The variables of a rule leave the agent where it is.
pub put_env-HasAgent :
    (incoming : EnvVar) (es : List EnvVar) → HasAgent es → HasAgent (put_env incoming es)
put_env-HasAgent incoming es (e, found, there) =
    (e, find_env-put_env java_tool_options_key incoming es e refl found, there)
