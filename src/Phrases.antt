-- ===== src/Phrases.antt =====
-- The fixed phrase of each error category: `ERROR_PHRASES` of src/acop/models/tool_vocabulary.py.
use cyberwithsteve_acop.Base.{String}
use cyberwithsteve_acop.Vocabulary.Reasons.{ToolErrorCategory}

pub error_phrase : ToolErrorCategory → String
error_phrase ToolErrorCategory.authentication = "The caller could not be authenticated."
error_phrase ToolErrorCategory.authorization = "The caller is not permitted to invoke this tool."
error_phrase ToolErrorCategory.policy_denied = "Policy refused this invocation."
error_phrase ToolErrorCategory.capability_not_bound =
    "No executable capability is bound to this tool name and version."
error_phrase ToolErrorCategory.approval_required = "This invocation requires human approval."
error_phrase ToolErrorCategory.approval_denied = "An approver denied this invocation."
error_phrase ToolErrorCategory.approval_expired = "The approval for this invocation expired."
error_phrase ToolErrorCategory.approval_invalid_envelope =
    "The approval does not match this invocation's execution envelope."
error_phrase ToolErrorCategory.self_approval_forbidden =
    "The requester may not approve their own invocation."
error_phrase ToolErrorCategory.invalid_target = "The target is unknown or out of scope."
error_phrase ToolErrorCategory.validation_error = "The request does not satisfy the tool's schema."
error_phrase ToolErrorCategory.idempotency_conflict =
    "That idempotency key was already used for a different execution envelope."
error_phrase ToolErrorCategory.timeout = "The tool exceeded its execution deadline."
error_phrase ToolErrorCategory.adapter_unavailable = "The adapter could not be reached."
error_phrase ToolErrorCategory.target_unavailable = "The target could not be reached."
error_phrase ToolErrorCategory.execution_failed = "The tool reported a failure."
error_phrase ToolErrorCategory.execution_indeterminate =
    "Execution was interrupted and the outcome is unknown. A human must determine what happened."
error_phrase ToolErrorCategory.validation_failed =
    "The tool executed but the intended change could not be confirmed."
error_phrase ToolErrorCategory.output_contract_violation =
    "The tool returned a result that does not match its declared output."
error_phrase ToolErrorCategory.cancelled = "The invocation was cancelled."
error_phrase ToolErrorCategory.internal_error = "An internal error occurred."
