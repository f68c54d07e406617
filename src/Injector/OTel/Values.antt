-- ===== src/Injector/OTel/Values.antt =====
-- What apis/webhook/injector/otel.go reads in the value of a variable, and what it makes of it.
use datakit_operator.Common.{
  ℕ, suc, Bool, true, false, not, ◌&&◌, ◌||◌, List, [], ◌∷◌, String, ◌==◌, if◌then◌else◌, any, eqb,
}
use datakit_operator.Common.Text.{◌⁀◌, split, fields, has_prefix}
use datakit_operator.Common.Trim.{has_suffix, trim_suffix, trim_prefix, trim_quotes}
use datakit_operator.Injector.OTel.{Library, java, python, nodejs}

abbrev pub java_agent_option : String
java_agent_option = "-javaagent:/otel-auto-instrumentation-java/javaagent.jar"

abbrev pub python_path_prefix : String
python_path_prefix =
    "/otel-auto-instrumentation-python/opentelemetry/instrumentation/auto_instrumentation"

abbrev pub python_mount_path : String
python_mount_path = "/otel-auto-instrumentation-python"

abbrev pub nodejs_require_path : String
nodejs_require_path = "/otel-auto-instrumentation-nodejs/autoinstrumentation.js"

unfoldable pub contains_java_tool_option : String → String → Bool
unfolding fields
contains_java_tool_option value option = any (λ f. f == option) (fields value)

-- with 58 for a colon
unfoldable pub contains_python_path_component : String → String → Bool
unfolding split
contains_python_path_component value path = any (λ c. c == path || c == path ⁀ "/") (split 58 value)

abbrev count_if : Bool → ℕ → ℕ
count_if true n = suc n
count_if false n = n

unfoldable pub count_equal : String → List String → ℕ
count_equal s [] = 0
count_equal s (t ∷ ts) = count_if (t == s) (count_equal s ts)

unfoldable pub last_of : String → List String → String
last_of s [] = s
last_of s (t ∷ ts) = last_of t ts

-- Two components at least, the prefix in front, the mount path at the end, and each of them once.
unfoldable pub is_framed : List String → Bool
unfolding count_equal last_of
is_framed [] = false
is_framed (c ∷ []) = false
is_framed (c ∷ d ∷ cs) =
    (c == python_path_prefix && last_of d cs == python_mount_path)
    && (eqb (count_equal python_path_prefix (c ∷ d ∷ cs)) 1
        && eqb (count_equal python_mount_path (c ∷ d ∷ cs)) 1)

unfoldable pub is_otel_python_path_injected : String → Bool
unfolding split is_framed
is_otel_python_path_injected value = is_framed (split 58 value)

-- The options `--require` that are followed by the path.
unfoldable pub count_required : List String → ℕ
count_required [] = 0
count_required (f ∷ []) = 0
count_required (f ∷ g ∷ fs) =
    count_if (f == "--require" && g == nodejs_require_path) (count_required (g ∷ fs))

unfoldable pub count_nodejs_require_options : String → ℕ
unfolding fields count_required
count_nodejs_require_options value = count_required (fields value)

unfoldable pub contains_nodejs_require_option : String → Bool
unfolding count_nodejs_require_options
contains_nodejs_require_option value = eqb (count_nodejs_require_options value) 1

abbrev is_require : String → Bool
is_require f = f == "--require" || f == "-r"

-- The module that a field names by itself.
own_target : String → String
unfolding has_prefix trim_prefix
own_target f =
    if has_prefix f "--require="
    then trim_prefix f "--require="
    else if has_prefix f "-r="
    then trim_prefix f "-r="
    else ""

is_datadog_target : String → Bool
unfolding trim_suffix trim_quotes has_suffix
is_datadog_target t =
    let target = trim_suffix (trim_quotes t) ".js" in
    target == "dd-trace/init" || has_suffix target "/node_modules/dd-trace/init"

-- The loop over the fields; `after` says that the field before asked for a module.
requires_datadog : Bool → List String → Bool
unfolding own_target is_datadog_target
requires_datadog after [] = false
requires_datadog after (f ∷ fs) =
    is_datadog_target (if after then f else if is_require f then "" else own_target f)
    || requires_datadog (not after && is_require f) fs

unfoldable pub contains_datadog_nodejs_require : String → Bool
unfolding requires_datadog fields
contains_datadog_nodejs_require value = requires_datadog false (fields value)

-- The value for a container without the variable, and what becomes of a value that is there.
abbrev pub fresh_value : Library → String
fresh_value java = java_agent_option
fresh_value python = python_path_prefix ⁀ ":" ⁀ python_mount_path
fresh_value nodejs = " --require " ⁀ nodejs_require_path

unfoldable pub new_value : Library → String → String
unfolding contains_java_tool_option is_otel_python_path_injected contains_nodejs_require_option
new_value java v =
    if contains_java_tool_option v java_agent_option
    then v
    else if v == ""
    then java_agent_option
    else v ⁀ " " ⁀ java_agent_option
new_value python v =
    if is_otel_python_path_injected v
    then v
    else if v == ""
    then python_path_prefix ⁀ ":" ⁀ python_mount_path
    else python_path_prefix ⁀ ":" ⁀ v ⁀ ":" ⁀ python_mount_path
new_value nodejs v =
    if contains_nodejs_require_option v then v else v ⁀ " " ⁀ "--require " ⁀ nodejs_require_path
