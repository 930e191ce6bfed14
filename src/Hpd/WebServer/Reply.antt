-- ===== src/Hpd/WebServer/Reply.antt =====
-- hpbridge/hpdaemon/hpd_http_web_server.c and hpd_https_web_server.c: what a request has, what the
-- handlers of requests use of the world outside, and the responses that both servers send.
use home_automation_bridge_z.Prelude.{
  ℕ, Bool, true, false, Option, none, some, List, ◌==◌, if◌then◌else◌, Text, codes,
}
use home_automation_bridge_z.Hpd.LogFile.{LogFile}
use home_automation_bridge_z.Hpd.Services.{Heap, Service}
use home_automation_bridge_z.Hpd.Xml.{XmlFile, DeviceList}
use home_automation_bridge_z.Hpd.Xml.Document.{Node}
use home_automation_bridge_z.Hpd.ServerSentEvents.{Sessions}
use home_automation_bridge_z.Hpd.ServerSentEvents.Stream.{Mhd, Reply, whole, no_reply}

-- `*con_cls`: NULL, the address of a static, or the data of an upload, which may be freed.
pub data ConCls : Type 0 where
  nothing : ConCls
  first_call : ConCls
  upload : Text → ConCls
  freed_upload : ConCls

-- One call of the handler: the request, the arguments "x" and "p" and the cookie "session", and the
-- part of the upload that the call has, `[]` if `*upload_data_size` is 0.
pub record Call : Type 0 where
  pub method : Text
  pub url : Text
  pub x : Option Text
  pub p : Option Text
  pub cookie : Option Text
  pub upload_data : Text

-- The world outside: the responses of libmicrohttpd, the ids that are generated, the time, Mini-XML,
-- the functions of the drivers, which give the bytes that they write, and for the log whether its
-- file opens, the date and the time, and the address of the client as `inet_ntop` prints it.
pub record Outside : Type 0 where
  pub mhd : Mhd
  pub session : Text
  pub connection_id : Text
  pub now : Text
  pub mxml_save : Node → Option Text
  pub mxml_load : Text → Option Node
  pub save_list : DeviceList → Option Text
  pub drive_get : ℕ → Service → Text
  pub drive_put : ℕ → Service → Text → Text
  pub log_opens : Bool
  pub date : Text
  pub time : Text
  pub ip : Text

-- What a handler reads and changes; `services` is the list of its server, `hpd_log` is none if it is
-- NULL.
pub record ServerState : Type 0 where
  pub heap : Heap
  pub services : List ℕ
  pub xml : XmlFile
  pub sessions : Sessions
  pub hpd_log : Option LogFile

-- The state and `*con_cls` behind a call, and its reply; `none` is a fault.
abbrev pub Answer : Type 0
Answer = Option (ServerState × ConCls × Reply)

-- `send_xml` of the HTTP server: MHD_NO for NULL.
unfoldable pub send_xml : Mhd → Option Text → Option Reply
send_xml mhd none = some (no_reply 0)
send_xml mhd (some xml) =
    if mhd.created
    then some (record {
      response = some (record {
        status = 200;
        content_type = some (codes "text/xml");
        cookie = none;
        body = whole xml;
      });
      result = mhd.queued;
    })
    else some (no_reply 0)

-- `send_xml` of the HTTPS server: `strlen` of NULL faults.
unfoldable pub secure_send_xml : Mhd → Option Text → Option Reply
secure_send_xml mhd none = none
secure_send_xml mhd (some xml) = send_xml mhd (some xml)

abbrev pub error_reply : Mhd → (status : ℕ) → (text : Text) → Reply
error_reply mhd status text =
    if mhd.created
    then record {
      response =
          some (record { status = status; content_type = none; cookie = none; body = whole text });
      result = mhd.queued;
    }
    else no_reply 0

unfoldable pub send_error : Mhd → (status : ℕ) → Reply
send_error mhd status = error_reply mhd status (
    if status == 404
    then codes "Not Found"
    else if status == 400
    then codes "Bad Request"
    else if status == 500
    then codes "Internal Server Error"
    else codes "Unknown error")

unfoldable pub secure_send_error : Mhd → (status : ℕ) → Reply
secure_send_error mhd status = error_reply mhd status (
    if status == 404
    then codes "<html><head><title>Not Found</title></head></html>"
    else if status == 400
    then codes "<html><head><title>Bad Request</title></head></html>"
    else if status == 401
    then codes "<html><head><title>Unauthorized</title></head></html>"
    else if status == 500
    then codes "Internal Server Error"
    else codes "<html><head><title>Unknown Error</title></head></html>")

-- What a server has of its own: the two functions above, the kind of its connections, what
-- `*con_cls` points to after an upload without a value, whose data only the HTTPS server frees, and
-- whether it logs a request before it acts on it.
pub record Server : Type 0 where
  pub send_document : Option Text → Option Reply
  pub refuse : ℕ → Reply
  pub is_secure : ℕ
  pub after_bad_value : Text → ConCls
  pub logs_first : Bool

abbrev pub http_server : Outside → Server
http_server o = record {
  send_document = send_xml o.mhd;
  refuse = send_error o.mhd;
  is_secure = 3;
  after_bad_value = upload;
  logs_first = false;
}

abbrev pub https_server : Outside → Server
https_server o = record {
  send_document = secure_send_xml o.mhd;
  refuse = secure_send_error o.mhd;
  is_secure = 2;
  after_bad_value = λ sent. freed_upload;
  logs_first = true;
}
