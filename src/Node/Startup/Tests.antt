-- ===== src/Node/Startup/Tests.antt =====
-- A node that starts over one file of the sample machine.
use sahya_net.Node.Sample.{host}
use sahya_net.Node.Startup.{start}
use sahya_net.Node.Startup.Member.{IsMember, run_node-IsMember}
use sahya_net.Node.Scenario.{one_file, flags, prepared, runtime, any_level, starts}

run_node-IsMember_example : IsMember host flags one_file (start host flags prepared)
run_node-IsMember_example =
    run_node-IsMember host any_level flags one_file runtime (start host flags prepared) starts
