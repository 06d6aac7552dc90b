-- ===== src/Node/Launch/Tests.antt =====
-- The sample node, stopped when it has committed the block of height 1, is built anew.
use sahya_net.Prelude.{
  ℕ, ◌≡◌, ◌⊎◌, ◌+◌, refl, none, some, leb, if◌then◌else◌, [], ◌∷◌, ==_iff, arith,
}
use sahya_net.Types.Sample.Blocks.{zero_hash, child}
use sahya_net.Syncer.Environment.Sample.{environment, environment_laws}
use sahya_net.Syncer.Coherence.{IsCoherent}
use sahya_net.Application.Finalizer.{commit}
use sahya_net.Pipeline.Consistent.{Descends}
use sahya_net.Pipeline.Restart.{Life}
use sahya_net.Pipeline.Restart.Calls.{InTurn}
use sahya_net.Pipeline.Restart.Sample.{storage, reopened, committed, stored-IsLeft, opens, life}
use sahya_net.Node.Config.{Url, config_of}
use sahya_net.Node.Sample.{host}
use sahya_net.Node.Scenario.{sample_config}
use sahya_net.Node.Engine
use sahya_net.Node.Engine.Knows.{keys}
use sahya_net.Node.Launch.{Machine, Actors, launch}
use sahya_net.Node.Launch.Resumes.{Finds, pipeline_of, launch_resumes}

abbrev machine : Machine host ℕ environment
machine = record {
  storage = storage;
  outside = record {
    Secret = Unit;
    Uri = Url;
    Connection = Url;
    Disk = Unit;
    from_hex = λ text. some tt;
    parse = λ url. some url;
    connect = λ secret uri. uri;
    init_metadata = λ partition disk. some (some 1);
  };
  same_disk = λ disk. disk;
  BufferEngine = Unit;
  Simplex = ℕ;
  new_buffer = λ config. tt;
  new_simplex = λ config. if leb config.skip_timeout config.activity_timeout then some 0 else none;
}

abbrev public_of : ℕ → ℕ
public_of p = p

finds :
    Finds machine
      (Engine.new host
        (keys host ==_iff public_of (λ p n. p ∷ []))
        public_of
        (λ p n. p ∷ [])
        sample_config).simplex
      sample_config
      committed
      tt
unfolding commit config_of Engine.new
finds = record {
  secret = tt;
  uri = sample_config.engine_url;
  syncer = reopened;
  simplex = 0;
  reads_secret = refl;
  parses = refl;
  stored = refl;
  opens = opens;
  takes_config = refl;
  left = stored-IsLeft;
}

launch_resumes_example :
    (a : Actors machine) × (launch machine
        (Engine.new host
          (keys host ==_iff public_of (λ p n. p ∷ []))
          public_of
          (λ p n. p ∷ [])
          sample_config)
        tt
      ≡ some a)
    × (a.application.state.genesis_hash ≡ zero_hash)
    × (a.application.finalizer.last_indexed ≡ 1)
    × Descends environment 0 (child ∷ [])
    × IsCoherent environment a.syncer
    × InTurn (child ∷ [])
    × ((child.height ≡ a.application.finalizer.last_indexed)
        ⊎ (child.height ≡ a.application.finalizer.last_indexed + 1))
    × Life storage "quartz" zero_hash (pipeline_of (child ∷ []) a) (child ∷ [])
unfolding config_of
launch_resumes_example =
    launch_resumes machine (keys host ==_iff public_of (λ p n. p ∷ [])) public_of (λ p n. p ∷ [])
      environment_laws sample_config tt life finds (omega arith)
