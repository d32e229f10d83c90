-- ===== src/Main/Tests.antt =====
-- An instance for src/main.cpp.
use flowstudy_judge.Common.{bytes, bytes_eq, pos, ◌≡◌, refl, [], ◌∷◌, some, done}
use flowstudy_judge.Config.Load.{load_json, section_of}
use flowstudy_judge.Platform.Scripted.{scripted}
use flowstudy_judge.Json.Scripted.{object_end, scripted_json}
use flowstudy_judge.Sandbox.Command.{cleanup}
use flowstudy_judge.Judge.Engine.Tests.{state_of}
use flowstudy_judge.Db.Scripted.{mysql, server}
use flowstudy_judge.Mq.Scripted.{amqp, broker}
use flowstudy_judge.Mq
use flowstudy_judge.Mq.{timeout}
use flowstudy_judge.Mq.Consume.{consume, consume_loop}
use flowstudy_judge.Db
use flowstudy_judge.Worker.{Libs}
use flowstudy_judge.Worker.Run.{run, retry}
use flowstudy_judge.Worker.Tests.{both_rounds}
use flowstudy_judge.Main.{Worlds, main}
use flowstudy_judge.Main.Process.{Process}

abbrev libs : Libs
libs = record {
  platform = scripted;
  json = scripted_json ((bytes "{}", object_end) ∷ []);
  mysql = mysql;
  amqp = amqp;
}

abbrev worlds : Worlds libs
worlds = record {
  sandboxes = record {
    files = (bytes "config.json", bytes "{}") ∷ [];
    script = (pos 0, []) ∷ (pos 0, []) ∷ [];
    commands = [];
  };
  database = server;
  queue = broker [];
}

-- The broker waits once, and then fails.
abbrev waiting : Worlds libs
waiting = record worlds { queue = broker (timeout ∷ []) }

waiting_end :
    main libs [] both_rounds waiting
    ≡ done (some (pos 1)) (state_of waiting (main libs [] both_rounds waiting))
unfolding main run consume consume_loop retry Db.connect Mq.connect bytes_eq load_json section_of
    cleanup
waiting_end = refl
