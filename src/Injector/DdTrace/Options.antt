-- ===== src/Injector/DdTrace/Options.antt =====
-- What the libraries of apis/webhook/injector/ddtrace.go make of the value of a variable that is there
-- already, and that making it twice changes nothing.
use datakit_operator.Common.{Bool, ◌||◌, String, ◌==◌, if◌then◌else◌, any}
use datakit_operator.Common.Text.{◌⁀◌, split, fields, has_prefix}

abbrev pub java_agent_option : String
java_agent_option = "-javaagent:/datadog-lib/dd-java-agent.jar"

abbrev pub is_java_agent : String → Bool
is_java_agent f =
    f == java_agent_option || has_prefix f "-javaagent:/datadog-lib/dd-java-agent.jar="

unfoldable pub append_java_agent_if_missing : String → String
unfolding fields has_prefix
append_java_agent_if_missing value =
    if any is_java_agent (fields value) then value else value ⁀ " " ⁀ java_agent_option

unfoldable pub append_option_if_missing : String → String → String
unfolding fields
append_option_if_missing value option =
    if any (λ f. f == option) (fields value) then value else value ⁀ " " ⁀ option

-- with 58 for a colon
unfoldable pub path_list_contains : String → String → Bool
unfolding split
path_list_contains value path = any (λ f. f == path) (split 58 value)

unfoldable pub python_path : String → String
unfolding path_list_contains
python_path value =
    if path_list_contains value "/datadog-lib/"
    then value
    else if value == ""
    then "/datadog-lib/"
    else "/datadog-lib/:" ⁀ value

unfoldable pub php_package_path : String → String
php_package_path value = if value == "" then "/datadog-lib" else value

unfoldable pub php_scan_dir : String → String
unfolding path_list_contains
php_scan_dir value =
    if path_list_contains value "/datadog-lib"
    then value
    else if value == ""
    then "/usr/local/etc/php/conf.d:/datadog-lib"
    else value ⁀ ":/datadog-lib"

abbrev pub nodejs_init_option : String
nodejs_init_option = "--require=/datadog-lib/node_modules/dd-trace/init"
