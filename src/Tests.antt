-- ===== src/Tests.antt =====
-- Runs of the model on concrete inputs, part by part.
mod KvsRuns
mod ClusterRuns
mod ClientRuns
mod ZmqRuns
mod ThreadRuns
mod LatticeRuns
mod PushPullRuns
mod ConcurrencyRuns
mod FlowRuns
mod TimerRuns
mod ServerRuns
mod Codecs
mod WorkerRuns
mod TimerFdRuns
mod SystemRuns
