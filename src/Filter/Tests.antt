-- ===== src/Filter/Tests.antt =====
-- Filters at concrete texts.
use tapgres.Prelude.{inl, none}
use tapgres.Outcome.{Ensures}
use tapgres.Event.{Text}
use tapgres.Filter.{codes, Engine, has_substring}
use tapgres.Filter.Parser.{parse_filter}
use tapgres.Filter.Parser.Typed.{IsTypedFilter, parse_filter-IsTyped}

-- Patterns stand for themselves, and no address is read.
abbrev literal : Engine
literal = record {
  Regex = Text;
  build = λ t. inl t;
  is_match = λ pattern_text t. has_substring pattern_text t;
  parse_ip_addr = λ t. none;
}

abbrev source : Text
source =
    codes " message.type == \"Query\" or client.port == 5432 && not message.text contains r\"x\" "

parse_filter-IsTyped_example : Ensures IsTypedFilter (parse_filter literal source)
parse_filter-IsTyped_example = parse_filter-IsTyped literal source
