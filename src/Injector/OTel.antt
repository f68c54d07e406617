-- ===== src/Injector/OTel.antt =====
-- apis/webhook/injector/otel.go: the tracing libraries of OpenTelemetry. This file has the names, the
-- libraries and the choice of a rule.
pub mod Grown
pub mod Values
pub mod Validation
pub mod Process
use datakit_operator.Common.{
  Option, none, some, Bool, true, false, not, List, [], ◌∷◌, String, ◌==◌, if◌then◌else◌, lookup,
}
use datakit_operator.Common.Text.{◌⁀◌}
use datakit_operator.Config.Rules.{OTelRule}

abbrev pub otel_volume_name : String
otel_volume_name = "datakit-otel-auto-instrument"

-- The languages that have a library.
pub data Library : Type 0 where
  java python nodejs : Library

unfoldable pub library_of : String → Option Library
library_of l =
    if l == "java"
    then some java
    else if l == "python"
    then some python
    else if l == "nodejs"
    then some nodejs
    else none

abbrev pub mount_path : Library → String
mount_path java = "/otel-auto-instrumentation-java"
mount_path python = "/otel-auto-instrumentation-python"
mount_path nodejs = "/otel-auto-instrumentation-nodejs"

abbrev pub init_command : Library → List String
init_command java = "cp" ∷ "/javaagent.jar" ∷ "/otel-auto-instrumentation-java/javaagent.jar" ∷ []
init_command python = "cp" ∷ "-r" ∷ "/autoinstrumentation/." ∷ mount_path python ∷ []
init_command nodejs = "cp" ∷ "-r" ∷ "/autoinstrumentation/." ∷ mount_path nodejs ∷ []

-- The variable that a library is loaded by.
abbrev pub options_key : Library → String
options_key java = "JAVA_TOOL_OPTIONS"
options_key python = "PYTHONPATH"
options_key nodejs = "NODE_OPTIONS"

-- A rule and the version that an annotation asks for, empty for none.
abbrev pub Matched : Type 0
Matched = Option (OTelRule × String)

abbrev pub if_version : OTelRule → Option String → Matched → Matched
if_version rule none rest = rest
if_version rule (some version) rest = some (rule, version)

-- `selectOTelRule`
unfoldable pub select_otel_rule : List OTelRule → List (String × String) → Matched
select_otel_rule [] annotations = none
select_otel_rule (rule ∷ rules) annotations =
    if rule.check_annotation
    then if_version rule
        (lookup ("admission.datakit/otel-" ⁀ rule.language ⁀ "-lib.version") annotations)
        (select_otel_rule rules annotations)
    else some (rule, "")
