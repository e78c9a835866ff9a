-- ===== src/Tests/HubbleFixtures.antt =====
-- A hubble command that prints one flow, for the examples.
use samsung.Prelude.{ℕ, suc, pos, none, some, [], ◌∷◌, codes}
use samsung.Hubble.{flow, Flow}
use samsung.Hubble.Lines.{Decoder}
use samsung.Hubble.Fetch.{Command, ended}

-- a flow to the deployment web
abbrev pub web_flow : Flow
web_flow = record {
  l4 = none;
  time = some (codes "now");
  verdict = some (codes "DROPPED");
  traffic_direction = none;
  source = none;
  destination = some (record {
    namespace = some (codes "shop");
    pod_name = some (codes "web-1");
    workloads = some (codes "web") ∷ [];
    labels = [];
  });
}

-- every line is that flow, at second 990
abbrev pub decoder : Decoder ℕ
decoder = record { decode = λ line. flow web_flow; from_iso = λ t. some 990000 }

abbrev pub command : Command ℕ
command = record {
  binary = codes "hubble";
  relay_addr = codes "relay:80";
  run = λ args w. (ended (pos 0) (codes "{}") [], suc w);
}
