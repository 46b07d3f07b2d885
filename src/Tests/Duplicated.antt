-- ===== src/Tests/Duplicated.antt =====
-- Redeliveries while Loki cannot be reached, at a concrete input.
use signalyard.Common.{
  arith, ◌+◌, ◌≡◌, refl, true, none, some, [], ◌∷◌, length, find, select, order_by,
}
use signalyard.Platform.World.{Env}
use signalyard.Registry.Agents.{find_agent}
use signalyard.Normalizer.State.{Upstream}
use signalyard.Normalizer.Store.{active_row, refers_to_agent}
use signalyard.Normalizer.Worker.{destinations, routing_of}
use signalyard.Normalizer.Counts.Consumed.{consume}
use signalyard.Normalizer.Redelivered.{times, naks}
use signalyard.Normalizer.Duplicated.{Knows, consume-duplicated}
use signalyard.Tests.Setup.{test_env}
use signalyard.Tests.Worker.{login}
use signalyard.Tests.Normalizer.{with_schema, postgres_schema, approved, auth_row}

abbrev no_loki : Env
no_loki = record test_env { http_status = λ n. none }

abbrev fan_out : Upstream
fan_out = record with_schema {
  yaml_decode = λ text. record { target = ""; targets = "postgres" ∷ "loki" ∷ [] };
}

both :
    destinations (routing_of ⦃env = no_loki⦄ ⦃up = fan_out⦄ "postgres") ≡ "postgres" ∷ "loki" ∷ []
unfolding destinations routing_of
both = refl

active_found : active_row "auth" approved.world.db ≡ some auth_row
unfolding active_row find select order_by
active_found = refl

agent_found : refers_to_agent (some 7) approved.world.db ≡ true
unfolding refers_to_agent find_agent find
agent_found = refl

nothing_cached : Knows "auth" postgres_schema approved
nothing_cached c h = ground arith

consume-duplicated_example :
    ((consume ⦃env = no_loki⦄ ⦃up = fan_out⦄ (times 3 login) approved).0 ≡ naks 3)
    × (length (consume ⦃env = no_loki⦄ ⦃up = fan_out⦄ (times 3 login) approved).1.world.db.events
        ≡ length approved.world.db.events + 3)
consume-duplicated_example =
    consume-duplicated ⦃env = no_loki⦄ ⦃up = fan_out⦄ 3 login postgres_schema auth_row [] approved
      (λ n. refl) (λ n. refl) refl refl (λ w. refl) refl both nothing_cached active_found
      agent_found
