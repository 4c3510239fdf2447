-- ===== src/Examples/Schedules.antt =====
-- Cron expressions of src/util/cron.ts, on concrete fields and dates.
use node_red_contrib_eelectr.Base.{◌≡◌, refl, arith, none, some, [], ◌∷◌, ok}
use node_red_contrib_eelectr.Core.Text.{show}
use node_red_contrib_eelectr.Core.GaMatcher.{includes}
use node_red_contrib_eelectr.Util.Cron.{infinite_from, CronMatcher, Date, compile_cron, matches}
use node_red_contrib_eelectr.Util.Cron.Pieces.{every, at, between}
use node_red_contrib_eelectr.Util.Cron.Expressions.{
  Field, Expression, IsExpression, expression_text, falls_on, matches-compile_cron,
}

abbrev all : Field
all = record { first = record { span = every; step = none }; others = [] }

-- "*/15 6-20/2 1,15 * 1-5"
abbrev expression : Expression
expression = record {
  minute_field = record { first = record { span = every; step = some 15 }; others = [] };
  hour_field = record { first = record { span = between 6 20; step = some 2 }; others = [] };
  dom_field = record {
    first = record { span = at 1; step = none };
    others = record { span = at 15; step = none } ∷ [];
  };
  month_field = all;
  dow_field = record { first = record { span = between 1 5; step = none }; others = [] };
}

-- A Sunday, the first of March, at 8:45.
abbrev date : Date
date = record { minute = 45; hour = 8; dom = 1; month = 3; dow = 0 }

expression_ok : IsExpression expression
unfolding includes show infinite_from
expression_ok = record {
  minute_ok = (
    record {
      low = omega arith;
      high = omega arith;
      ordered = omega arith;
      steps_on = omega arith;
      finite = refl;
    },
    tt,
  );
  hour_ok = (
    record {
      low = omega arith;
      high = omega arith;
      ordered = omega arith;
      steps_on = omega arith;
      finite = refl;
    },
    tt,
  );
  dom_ok = (
    record {
      low = omega arith;
      high = omega arith;
      ordered = omega arith;
      steps_on = omega arith;
      finite = refl;
    },
    (
      record {
        low = omega arith;
        high = omega arith;
        ordered = omega arith;
        steps_on = omega arith;
        finite = refl;
      },
      tt,
    ),
  );
  month_ok = (
    record {
      low = omega arith;
      high = omega arith;
      ordered = omega arith;
      steps_on = omega arith;
      finite = refl;
    },
    tt,
  );
  dow_ok = (
    record {
      low = omega arith;
      high = omega arith;
      ordered = omega arith;
      steps_on = omega arith;
      finite = refl;
    },
    tt,
  );
  no_seven = refl;
}

matches-compile_cron_example :
    (m : CronMatcher) × (compile_cron (expression_text expression) ≡ ok m)
    × (matches m date ≡ falls_on expression date)
matches-compile_cron_example = matches-compile_cron expression date expression_ok
