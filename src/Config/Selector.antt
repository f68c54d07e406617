-- ===== src/Config/Selector.antt =====
-- config/selector.go, and the compilers that it calls: Go's `regexp.Compile` and the label selectors of
-- pkg/labels, a copy of the Kubernetes library. Both are parameters.
use datakit_operator.Common.{
  Option, none, some, Bool, List, [], ◌∷◌, String, ◌==◌, if◌then◌else◌, any,
}
use datakit_operator.Common.Text.{is_blank}

abbrev pub Labels : Type 0
Labels = List (String × String)

-- `labels.Selector`
pub record LabelSelector : Type 0 where
  pub empty : Bool
  pub matches : Labels → Bool

-- The libraries that a rule is compiled with; `none` is their error. A quantity is given by its
-- canonical text.
pub record Compilers : Type 0 where
  pub compile_regexp : String → Option (String → Bool)
  pub parse_labels : String → Option LabelSelector
  pub parse_quantity : String → Option String

pub record Selector : Type 0 where
  pub namespaces : List String
  pub labels : List String
  pub namespace_selectors : List (String → Bool)
  pub label_selectors : List LabelSelector

unfoldable pub replace_asterisk_with_dot_asterisk : String → String
replace_asterisk_with_dot_asterisk s = if s == "*" then ".*" else s

-- One turn of the loop over the namespaces: `none` where it continues.
unfoldable pub compile_namespace : Compilers → String → Option (String → Bool)
unfolding is_blank replace_asterisk_with_dot_asterisk
compile_namespace c s =
    if is_blank s then none else c.compile_regexp (replace_asterisk_with_dot_asterisk s)

abbrev unless_empty : Option LabelSelector → Option LabelSelector
unless_empty none = none
unless_empty (some p) = if p.empty then none else some p

-- One turn of the loop over the labels.
unfoldable pub compile_labels : Compilers → String → Option LabelSelector
compile_labels c s = unless_empty (c.parse_labels s)

abbrev pub cons_some {ℓ} : {A : Type ℓ} → Option A → List A → List A
cons_some none xs = xs
cons_some (some x) xs = x ∷ xs

unfoldable pub compile_namespaces : Compilers → List String → List (String → Bool)
unfolding compile_namespace
compile_namespaces c [] = []
compile_namespaces c (s ∷ ss) = cons_some (compile_namespace c s) (compile_namespaces c ss)

unfoldable pub compile_label_selectors : Compilers → List String → List LabelSelector
unfolding compile_labels
compile_label_selectors c [] = []
compile_label_selectors c (s ∷ ss) = cons_some (compile_labels c s) (compile_label_selectors c ss)

-- `Selector.setup`: what the compilers refuse is left out, with a warning in the log.
unfoldable pub setup : Compilers → Selector → Selector
unfolding compile_namespaces compile_label_selectors
setup c s = record s {
  namespace_selectors = compile_namespaces c s.namespaces;
  label_selectors = compile_label_selectors c s.labels;
}

unfoldable pub match_namespace : Selector → String → Bool
match_namespace s ns = any (λ re. re ns) s.namespace_selectors

unfoldable pub match_labels : Selector → Labels → Bool
match_labels s m = any (λ se. se.matches m) s.label_selectors
