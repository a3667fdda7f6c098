-- ===== src/Broker/Handler.antt =====
-- `RequestHandler::handle` of broker/request_handler.cpp: the handler for each opcode.
use fell.Base.{ℕ, ◌==◌, if◌then◌else◌}
use fell.Frame.{Frame}
use fell.Storage.Reader.{Outcome, ok}
use fell.Broker.Protocol.{
  op_create_topic, op_publish, op_subscribe, op_fetch, op_publish_v2, op_metadata_req, unknown_op,
  codes, encode_error,
}
use fell.Broker.Topics.{Disk}
use fell.Broker.Requests.{ConnectionState, Node, Reply, reply}
use fell.Broker.Publish.{handle_publish, handle_publish_v2}
use fell.Broker.Consume.{handle_subscribe, handle_fetch}
use fell.Broker.Admin.{handle_create_topic, handle_metadata_req}

-- `RequestHandler::handle`
unfoldable pub handle : ℕ → Disk → Frame → Node → ConnectionState → Outcome Reply
unfolding handle_metadata_req handle_create_topic handle_publish handle_publish_v2 handle_subscribe
    handle_fetch encode_error
handle now disk f node conn =
    let fetched = handle_fetch f node conn in
    if f.op == op_metadata_req
    then ok (handle_metadata_req f node conn)
    else if f.op == op_create_topic
    then ok (handle_create_topic now disk f node conn)
    else if f.op == op_publish
    then ok (handle_publish now f node conn)
    else if f.op == op_publish_v2
    then ok (handle_publish_v2 now f node conn)
    else if f.op == op_subscribe
    then ok (handle_subscribe f node conn)
    else if f.op == op_fetch
    then fetched
    else ok (reply (encode_error unknown_op (codes "Unknown operation")) node conn)
