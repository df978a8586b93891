-- ===== src/Dependencies.antt =====
-- `DependencyHealth` of app/dependencies.py: the last known state of each service that the program
-- depends on. States and keys are texts; the time of the check, which is not used, is left out.
pub mod Snapshot
mod Tests
use stpt_query.Common.{String, Option, none, some, List, [], ◌∷◌, ite, String_discrete}
use stpt_query.Common.Dict
use stpt_query.Common.Dict.{Dict}

abbrev redis_messages : Dict String
redis_messages =
    ("ok", "共享队列与历史正常")
    ∷ ("degraded", "Redis 不可用，查询继续；限流、历史与异步任务降级")
    ∷ ("error", "Redis 不可用")
    ∷ ("not-configured", "未配置 Redis，仅支持单副本历史与同步查询")
    ∷ []

abbrev query_proxy_messages : Dict String
query_proxy_messages =
    ("ok", "查询代理可达")
    ∷ ("degraded", "查询代理部分能力异常，已执行可用性降级")
    ∷ ("error", "查询代理不可达")
    ∷ ("unknown", "尚未探测查询代理")
    ∷ []

abbrev query_proxy_redis_messages : Dict String
query_proxy_redis_messages =
    ("ok", "查询代理共享状态正常")
    ∷ ("degraded", "查询代理 Redis 不可用，已降级为本副本内存状态")
    ∷ ("error", "查询代理 Redis 不可用")
    ∷ ("not-configured", "查询代理未配置 Redis")
    ∷ ("unknown", "尚未探测查询代理共享状态")
    ∷ []

abbrev school_service_messages : Dict String
school_service_messages =
    ("ok", "学校服务可达")
    ∷ ("degraded", "学校服务响应异常")
    ∷ ("error", "学校服务不可达")
    ∷ ("unknown", "尚未探测学校服务")
    ∷ []

abbrev llm_messages : Dict String
llm_messages =
    ("ok", "成绩分析 LLM 可用")
    ∷ ("degraded", "成绩分析 LLM 不可用，已降级为纯成绩表")
    ∷ ("error", "成绩分析 LLM 不可用")
    ∷ ("not-configured", "未配置 LLM，成绩分析保持关闭")
    ∷ []

abbrev file_log_messages : Dict String
file_log_messages =
    ("ok", "查询日志文件通道正常")
    ∷ ("degraded", "查询日志文件通道异常，已降级为内存与 stdout")
    ∷ ("error", "查询日志文件通道异常")
    ∷ ("disabled", "查询日志文件通道未启用")
    ∷ []

-- `_DEFAULT_MESSAGES`
abbrev pub default_messages : Dict (Dict String)
default_messages =
    ("redis", redis_messages)
    ∷ ("query_proxy", query_proxy_messages)
    ∷ ("query_proxy_redis", query_proxy_redis_messages)
    ∷ ("school_service", school_service_messages)
    ∷ ("llm", llm_messages)
    ∷ ("file_log", file_log_messages)
    ∷ []

-- `_LEVELS`
abbrev pub levels : Dict String
levels =
    ("ok", "success")
    ∷ ("degraded", "warning")
    ∷ ("error", "danger")
    ∷ ("not-configured", "info")
    ∷ ("unknown", "info")
    ∷ []

-- `_DISPLAY_NAMES`
abbrev pub display_names : Dict String
display_names =
    ("redis", "编排 Redis")
    ∷ ("query_proxy", "查询代理")
    ∷ ("query_proxy_redis", "查询代理 Redis")
    ∷ ("school_service", "学校服务")
    ∷ ("llm", "成绩分析 LLM")
    ∷ ("file_log", "文件日志")
    ∷ []

pub record Item : Type 0 where
  pub key : String
  pub display : String
  pub status : String
  pub level : String
  pub message : String

-- `d.get(key, default)`
abbrev pub or_else : String → Option String → String
or_else default none = default
or_else default (some v) = v

-- `_DEFAULT_MESSAGES.get(key, {}).get(state, "状态未知")`
unfoldable pub message_of : String → String → String
message_of key state = elim (Dict.get key default_messages) [
  | none ↦ "状态未知"
  | some of_key ↦ or_else "状态未知" (Dict.get state of_key)
]

-- `record`: a key that is not among the names is ignored.
unfoldable pub record_state : String → String → Dict String → Dict String
record_state key state states = elim (Dict.get key display_names) [
  | none ↦ states
  | some display ↦ Dict.put key state states
]

-- The state that the file log is given.
abbrev pub file_log_status : String → String
file_log_status s =
    ite (String_discrete s "ok") "ok" (ite (String_discrete s "disabled") "disabled" "error")

unfoldable pub with_file_log : Option String → Dict String → Dict String
with_file_log none states = states
with_file_log (some s) states = Dict.put "file_log" (file_log_status s) states

unfoldable pub item : String → String → Dict String → Item
item k name states =
    let state = or_else "unknown" (Dict.get k states) in
    record {
      key = k;
      display = name;
      status = state;
      level = or_else "info" (Dict.get state levels);
      message = message_of k state;
    }

-- The loop over the names.
unfoldable pub items_for : Dict String → Dict String → List Item
items_for [] states = []
items_for ((k, name) ∷ names) states = item k name states ∷ items_for names states

unfoldable pub snapshot : Option String → Dict String → List Item
snapshot file_log_state states = items_for display_names (with_file_log file_log_state states)
